-- ===== src/Bus/BackPath/Lru.antt =====
-- The storage of return paths as a cache with a limit, newest route first.
use zerobus.Prelude.{
  ℕ, zero, suc, ◌+◌, ◌≤◌, ◌<◌, ◌≡◌, refl, sym, ap, ◌∙◌, [], ◌∷◌, some, inl, inr, arith, length,
  take, take_all, ◌==◌, if◌then◌else◌, Option-cases, Bool-cases,
}
use zerobus.Prelude.Keys.{bytes_eq, ◌=?◌, =?_iff, =?_self}
use zerobus.Prelude.{==_iff}
use zerobus.Prelude.Assoc.{
  lookup, erase, Fresh, Distinct, Distinct-erase, lookup-Fresh, erase_fresh,
}
use zerobus.Messages.{ChannelId}
use zerobus.Bus.Channel.{nullptr}
use zerobus.Bus.BackPath.{
  Paths, find_path, drop_last, evict, store_found, store_new, store_path, remove_paths,
}

length-drop_last : (p : ChannelId × ℕ) (e : Paths) → length (drop_last (p ∷ e)) ≡ length e
unfolding drop_last
length-drop_last p [] = refl
length-drop_last p (q ∷ e) = omega (arith, length-drop_last q e)

take-drop_last :
    (limit : ℕ) (e : Paths) → limit < length e → take limit (drop_last e) ≡ take limit e
unfolding drop_last
take-drop_last limit [] h = refl
take-drop_last zero (p ∷ []) h = refl
take-drop_last (suc limit) (p ∷ []) h = absurd (omega arith)
take-drop_last zero (p ∷ q ∷ e) h = refl
take-drop_last (suc limit) (p ∷ q ∷ e) h = ap (◌∷◌ p) (take-drop_last limit (q ∷ e) (omega arith))

-- The eviction loop keeps the `limit` newest entries, given a round for each entry.
evict-take :
    (limit rounds : ℕ) (e : Paths) → length e ≤ rounds → evict limit rounds e ≡ take limit e
unfolding evict
evict-take limit zero [] h = sym (take_all limit [] (omega arith))
evict-take limit zero (p ∷ e) h = absurd (omega arith)
evict-take limit (suc rounds) [] h = ground (arith, take_all {A = ChannelId × ℕ} limit [])
evict-take limit (suc rounds) (p ∷ e) h = ground (
  arith,
  take_all {A = ChannelId × ℕ} limit (p ∷ e),
  take-drop_last limit (p ∷ e),
  evict-take limit rounds (drop_last (p ∷ e)) (omega (arith, length-drop_last p e)),
)

-- No name twice, and no more entries than the limit.
pub record IsCache (limit : ℕ) (e : Paths) : Type 0 where
  pub distinct : Distinct e
  pub bounded : length e ≤ limit

length-erase_le : (c : ChannelId) (e : Paths) → length (erase c e) ≤ length e
unfolding erase
length-erase_le c [] = omega arith
length-erase_le c ((k, v) ∷ e) = ground (arith, length-erase_le c e)

length-erase_found :
    (c : ChannelId) (l : ℕ) (e : Paths) → lookup c e ≡ some l → length (erase c e) + 1 ≡ length e
unfolding lookup erase
length-erase_found c l [] h = cc
length-erase_found c l ((k, v) ∷ e) h = ground (arith, length-erase_found c l e)

-- In a storage of distinct names within the limit, store_path puts the route in front of the
-- others, without the one that it replaces, and keeps as many as the limit allows; with the
-- null pointer it takes the route of that name away.
pub store_path-take :
    (limit : ℕ) (c : ChannelId) (l : ℕ) (e : Paths)
    → IsCache limit e
    → store_path limit c l e ≡ (if l == nullptr then erase c e else take limit ((c, l) ∷ erase c e))
unfolding store_path store_found store_new
store_path-take limit c l e i = elim (Option-cases (lookup c e)) [
  | inl new ↦
      rw (new, store_path)
        (ground (arith, erase_fresh c e new, evict-take limit (length ((c, l) ∷ e)) ((c, l) ∷ e)))
  | inr (old, found) ↦
      rw (found, store_path)
        (ground
          (arith, length-erase_found c old e found, take_all limit ((c, l) ∷ erase c e), i.bounded))
]

Fresh-take : (c : ChannelId) (n : ℕ) (e : Paths) → Fresh c e → Fresh c (take n e)
Fresh-take c zero e f = tt
Fresh-take c (suc n) [] f = tt
Fresh-take c (suc n) ((k, v) ∷ e) f = (f.0, Fresh-take c n e f.1)

Distinct-take : (n : ℕ) (e : Paths) → Distinct e → Distinct (take n e)
Distinct-take zero e d = tt
Distinct-take (suc n) [] d = tt
Distinct-take (suc n) ((k, v) ∷ e) d = (Fresh-take k n e d.0, Distinct-take n e d.1)

length-take_le : (n : ℕ) (e : Paths) → length (take n e) ≤ n
length-take_le zero e = omega arith
length-take_le (suc n) [] = omega arith
length-take_le (suc n) (p ∷ e) = omega (arith, length-take_le n e)

Fresh-erase_self : (c : ChannelId) (e : Paths) → Distinct e → Fresh c (erase c e)
unfolding erase
Fresh-erase_self c [] d = tt
Fresh-erase_self c ((k, v) ∷ e) d = ground (arith, =?_iff k c, Fresh-erase_self c e)

-- In a storage of distinct names within the limit, the names stay distinct and within the limit
-- after store_path.
pub store_path-IsCache :
    (limit : ℕ) (c : ChannelId) (l : ℕ) (e : Paths)
    → IsCache limit e
    → IsCache limit (store_path limit c l e)
store_path-IsCache limit c l e i =
    rw (store_path-take limit c l e i) (elim (Bool-cases (l == nullptr)) [
      | inl gone ↦ rw gone (record {
        distinct = Distinct-erase c e i.distinct;
        bounded = omega (arith, length-erase_le c e, i.bounded);
      })
      | inr stored ↦ rw stored (record {
        distinct =
            Distinct-take limit ((c, l) ∷ erase c e)
              (Fresh-erase_self c e i.distinct, Distinct-erase c e i.distinct);
        bounded = length-take_le limit ((c, l) ∷ erase c e);
      })
    ])

find_path-Fresh : (c : ChannelId) (e : Paths) → Fresh c e → find_path c e ≡ nullptr
unfolding find_path
find_path-Fresh c e f = rw (lookup-Fresh c e f, find_path)

find_path_front :
    (limit : ℕ) (c : ChannelId) (l : ℕ) (e : Paths)
    → 0 < limit
    → find_path c (take limit ((c, l) ∷ e)) ≡ l
unfolding find_path lookup
find_path_front zero c l e h = absurd (omega arith)
find_path_front (suc limit) c l e h = ground (arith, =?_self c)

-- In a storage of distinct names within a limit above 0, find_path gives the listener that
-- store_path just stored under the name.
pub find_path-store_path :
    (limit : ℕ) (c : ChannelId) (l : ℕ) (e : Paths)
    → IsCache limit e
    → 0 < limit
    → find_path c (store_path limit c l e) ≡ l
find_path-store_path limit c l e i pos =
    rw (store_path-take limit c l e i) (elim (Bool-cases (l == nullptr)) [
      | inl gone ↦ rw gone (
          find_path-Fresh c (erase c e) (Fresh-erase_self c e i.distinct)
          ∙ sym ((==_iff l nullptr).0 gone))
      | inr stored ↦ rw stored (find_path_front limit c l (erase c e) pos)
    ])

length-remove_paths_le : (l : ℕ) (e : Paths) → length (remove_paths l e) ≤ length e
unfolding remove_paths
length-remove_paths_le l [] = omega arith
length-remove_paths_le l ((k, v) ∷ e) = ground (arith, length-remove_paths_le l e)

Fresh-remove_paths : (c : ChannelId) (l : ℕ) (e : Paths) → Fresh c e → Fresh c (remove_paths l e)
unfolding remove_paths
Fresh-remove_paths c l [] f = tt
Fresh-remove_paths c l ((k, v) ∷ e) f = ground (arith, Fresh-remove_paths c l e f.1)

Distinct-remove_paths : (l : ℕ) (e : Paths) → Distinct e → Distinct (remove_paths l e)
unfolding remove_paths
Distinct-remove_paths l [] d = tt
Distinct-remove_paths l ((k, v) ∷ e) d =
    ground (arith, Distinct-remove_paths l e d.1, Fresh-remove_paths k l e d.0)

pub remove_paths-IsCache :
    (limit l : ℕ) (e : Paths) → IsCache limit e → IsCache limit (remove_paths l e)
remove_paths-IsCache limit l e i = record {
  distinct = Distinct-remove_paths l e i.distinct;
  bounded = omega (arith, length-remove_paths_le l e, i.bounded);
}

find_path_cons :
    (c k : ChannelId) (v : ℕ) (e : Paths)
    → find_path c ((k, v) ∷ e) ≡ (if k =? c then v else find_path c e)
unfolding find_path lookup
find_path_cons c k v e = ground arith

-- In a storage of distinct names, no route leads to a listener after remove_listener, and the
-- routes to other listeners are the same as before.
pub find_path-remove_paths :
    (c : ChannelId) (l : ℕ) (e : Paths)
    → Distinct e
    → find_path c (remove_paths l e) ≡ (if find_path c e == l then nullptr else find_path c e)
unfolding remove_paths
find_path-remove_paths c l [] d = unfold find_path lookup in ground arith
find_path-remove_paths c l ((k, v) ∷ e) d = ground (
  arith,
  =?_iff k c,
  find_path_cons c k v e,
  find_path_cons c k v (remove_paths l e),
  find_path-Fresh c (remove_paths l e),
  Fresh-remove_paths k l e d.0,
  find_path-remove_paths c l e d.1,
)
