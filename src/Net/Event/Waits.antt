-- ===== src/Net/Event/Waits.antt =====
-- A callback that destroys its own connection waits for itself (src/zerobus/network_linux.cpp).
use zerobus.Prelude.{ℕ, ◌≡◌, refl, ap, ◌∙◌, true, false, List, ◌∷◌, arith, ◌==◌}
use zerobus.Bus.Routing.{done, unfinished, ◌>>=◌}
use zerobus.Net.Socket.{Callback, NetContext, is_socket}
use zerobus.Net.Call.{NetCall, destroys, destroy, call, run_calls}
use zerobus.Net.Event.{count_callback, uncount_callback, invoke_cb}

destroy-waits :
    (id : ℕ) (n : NetContext)
    → is_socket id n ≡ true
    → ((n.sockets id).cb_call_cntr == 0) ≡ false
    → destroy id n ≡ unfinished
unfolding destroy
destroy-waits id n h k = rw (h, k) refl

-- A callback of a connection in use that first of all destroys its own connection does not
-- return: destroy waits until no callback of the connection runs.
pub invoke_cb-destroys :
    (handler : Callback → NetContext → List NetCall) (id : ℕ) (cb : Callback) (n : NetContext)
    (rest : List NetCall)
    → is_socket id n ≡ true
    → handler cb (count_callback id cb n) ≡ destroys id ∷ rest
    → invoke_cb handler id cb n ≡ unfinished
unfolding invoke_cb run_calls call
invoke_cb-destroys handler id cb n rest h e =
    let m = count_callback id cb n in
    ap (λ cs. run_calls cs m >>= (λ o. done (uncount_callback id o))) e
    ∙ ap (λ o. (o >>= run_calls rest) >>= (λ o. done (uncount_callback id o)))
        (destroy-waits id m (ground (arith, h)) (ground arith))
