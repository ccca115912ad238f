-- ===== src/Limits/Deduplicator.antt =====
-- `UpdateDeduplicator`: its set of updates, in the order of their insertion.
use wctm.Prelude.{
  ℕ, ◌+◌, Key, Bool, true, false, ◌||◌, List, [], ◌∷◌, ◌++◌, ◌==◌, ltb, length, if◌then◌else◌,
}

abbrev pub has : Key → List Key → Bool
has id [] = false
has id (x ∷ xs) = x == id || has id xs

-- `this.seen.delete(oldest)`
abbrev pub delete_oldest : List Key → List Key
delete_oldest [] = []
delete_oldest (x ∷ xs) = xs

-- `accept`
unfoldable pub accept : ℕ → Key → List Key → Bool × List Key
accept max_tracked id seen =
    if has id seen
    then (false, seen)
    else let added = seen ++ (id ∷ []) in
      (true, (if ltb max_tracked (length added) then delete_oldest added else added))

-- The updates that were seen after a run of calls, and the number of those that were accepted.
unfoldable pub accept_all : ℕ → List Key → List Key → List Key × ℕ
unfolding accept
accept_all max_tracked [] seen = (seen, 0)
accept_all max_tracked (id ∷ ids) seen =
    let (new, next) = accept max_tracked id seen in
    let (last, n) = accept_all max_tracked ids next in (last, (if new then 1 else 0) + n)
