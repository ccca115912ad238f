-- ===== src/Limits/Repeats.antt =====
-- How many updates the deduplicator holds, and when it takes one a second time.
use mathlib.Core.Path.{subst}
use wctm.Prelude.{
  ℕ, ◌+◌, ◌≤◌, ◌<◌, Key, ◌≡◌, refl, sym, inl, inr, true, false, List, [], ◌∷◌, ◌++◌, arith,
  Bool-cases, ltb, length, if◌then◌else◌,
}
use wctm.Limits.{has, delete_oldest, accept, accept_all}

length-append : (xs : List Key) (y : Key) → length (xs ++ (y ∷ [])) ≡ length xs + 1
length-append [] y = refl
length-append (x ∷ xs) y = omega (arith, length-append xs y)

length-delete_oldest : (xs : List Key) (n : ℕ) → length xs ≡ n + 1 → length (delete_oldest xs) ≡ n
length-delete_oldest [] n h = absurd (omega (arith, h))
length-delete_oldest (x ∷ xs) n h = omega (arith, h)

length-accept :
    (max : ℕ) (id : Key) (seen : List Key) → length seen ≤ max → length (accept max id seen).1 ≤ max
unfolding accept
length-accept max id seen h = elim (Bool-cases (has id seen)) [
  | inl y ↦ rw y h
  | inr n ↦ elim (Bool-cases (ltb max (length (seen ++ (id ∷ []))))) [
    | inl l ↦
        let e = length-delete_oldest (seen ++ (id ∷ [])) (length seen) (length-append seen id) in
        rw (n, l) (omega (arith, e, h))
    | inr l ↦ rw (n, l) (ground arith)
  ]
]

-- From a set that is within its bound, the set of updates stays within it, whatever the calls.
pub length-accept_all :
    (max : ℕ) (ids seen : List Key) → length seen ≤ max → length (accept_all max ids seen).0 ≤ max
unfolding accept_all
length-accept_all max [] seen h = h
length-accept_all max (id ∷ ids) seen h =
    length-accept_all max ids (accept max id seen).1 (length-accept max id seen h)

-- An update was seen, and a number of others after it.
data After (id : Key) : ℕ → List Key → Type 0 where
  here : (xs : List Key) → After id (length xs) (id ∷ xs)
  there : {n : ℕ} {xs : List Key} (x : Key) → After id n xs → After id n (x ∷ xs)

After-append :
    (id y : Key) (n : ℕ) (xs : List Key) → After id n xs → After id (n + 1) (xs ++ (y ∷ []))
After-append id y _ _ (here xs) =
    subst (λ k. After id k (id ∷ xs ++ (y ∷ []))) (length-append xs y) (here (xs ++ (y ∷ [])))
After-append id y n _ (there x a) = there x (After-append id y n _ a)

last-After : (id : Key) (xs : List Key) → After id 0 (xs ++ (id ∷ []))
last-After id [] = here []
last-After id (x ∷ xs) = there x (last-After id xs)

After-delete_oldest :
    (id : Key) (n : ℕ) (xs : List Key)
    → After id n xs
    → n + 1 < length xs
    → After id n (delete_oldest xs)
After-delete_oldest id _ _ (here xs) h = absurd (omega (arith, h))
After-delete_oldest id n _ (there x a) h = a

has-After : (id : Key) (n : ℕ) (xs : List Key) → After id n xs → has id xs ≡ true
has-After id _ _ (here xs) = ground arith
has-After id n _ (there {xs = xs} x a) = let h = has-After id n xs a in ground arith

-- An update that is being added stays while fewer others than the bound come after it.
added-After :
    (max : ℕ) (id y : Key) (n : ℕ) (seen : List Key)
    → has y seen ≡ false
    → After id n (seen ++ (y ∷ []))
    → n < max
    → After id n (accept max y seen).1
unfolding accept
added-After max id y n seen fresh a h = elim (Bool-cases (ltb max (length (seen ++ (y ∷ []))))) [
  | inl l ↦ rw (fresh, l) (After-delete_oldest id n (seen ++ (y ∷ [])) a (ground arith))
  | inr l ↦ rw (fresh, l) a
]

-- How many a call adds.
abbrev taken : ℕ → Key → List Key → ℕ
taken max id seen = if (accept max id seen).0 then 1 else 0

accept-After :
    (max : ℕ) (id y : Key) (n : ℕ) (seen : List Key)
    → After id n seen
    → n + taken max y seen < max
    → After id (n + taken max y seen) (accept max y seen).1
unfolding accept
accept-After max id y n seen a h = elim (Bool-cases (has y seen)) [
  | inl old ↦ rw old (subst (λ k. After id k seen) (omega arith) a)
  | inr new ↦
      let k : n + 1 < max = rw new at h in
      let next = added-After max id y (n + 1) seen new (After-append id y n seen a) k in
      subst (λ b. After id (n + (if b then 1 else 0)) (accept max y seen).1) (sym (accepts new))
        next
]
  where
    accepts : has y seen ≡ false → (accept max y seen).0 ≡ true
    accepts new = rw new refl

accept_all-After :
    (max : ℕ) (id : Key) (ids : List Key) (n : ℕ) (seen : List Key)
    → After id n seen
    → n + (accept_all max ids seen).1 < max
    → has id (accept_all max ids seen).0 ≡ true
unfolding accept_all
accept_all-After max id [] n seen a h = has-After id n seen a
accept_all-After max id (y ∷ ids) n seen a h =
    accept_all-After max id ids (n + taken max y seen) (accept max y seen).1
      (accept-After max id y n seen a (omega (arith, h))) (omega (arith, h))

accepted-After :
    (max : ℕ) (id : Key) (seen : List Key)
    → 1 ≤ max
    → (accept max id seen).0 ≡ true
    → After id 0 (accept max id seen).1
unfolding accept
accepted-After max id seen some_room h = elim (Bool-cases (has id seen)) [
  | inl old ↦ cc (let u = rw old at h in u)
  | inr new ↦ added-After max id id 0 seen new (last-After id seen) (omega (arith, some_room))
]

-- An update that was accepted is refused until at least as many other calls have been accepted as
-- the set may hold, which is at least one.
pub accept_no_repeat :
    (max : ℕ) (id : Key) (seen ids : List Key)
    → 1 ≤ max
    → (accept max id seen).0 ≡ true
    → (accept_all max ids (accept max id seen).1).1 < max
    → (accept max id (accept_all max ids (accept max id seen).1).0).0 ≡ false
unfolding accept
accept_no_repeat max id seen ids some_room h few =
    rw
      (accept_all-After max id ids 0 (accept max id seen).1 (accepted-After max id seen some_room h)
        (omega (arith, few)))
      refl
