-- ===== src/Worker/Accounts.antt =====
-- The count of a client's operations, and the peers whose removal waits for it.
use vdma.Prelude.{
  ℕ, ◌-◌, ◌<◌, ◌≡◌, ◌≢◌, List, [], ◌∷◌, none, some, true, not, ◌&&◌, arith, ◌==◌, if◌then◌else◌,
  keep, count, Bool-cases, Option-cases, inl, inr, sym,
}
use vdma.HashMap.{get, insert, remove, AllDistinct, get-insert, get-remove}
use vdma.HashMap
use vdma.Peers
use vdma.Worker.{
  Worker, member, unwrap_or, release_outstanding, release_peer, remove_or_defer, decrement, drained,
  finish_op,
}

-- `live` names the client of each operation that was accepted and is not finished.
pub record IsCounted {T : Type 0} (live : List ℕ) (w : Worker T) : Type 0 where
  pub distinct : AllDistinct w.outstanding_by_client
  pub counted : (c : ℕ) → unwrap_or (get c w.outstanding_by_client) 0 ≡ count c live
  pub positive : (c : ℕ) → get c w.outstanding_by_client ≢ some 0
  pub deferred : (c : ℕ) → member c w.pending_removal ≡ true → 0 < count c live

-- Only the counts matter, and of the worker only the accounts.
pub IsCounted-same :
    {T : Type 0} (live live' : List ℕ) (w w' : Worker T)
    → w'.outstanding_by_client ≡ w.outstanding_by_client
    → w'.pending_removal ≡ w.pending_removal
    → ((c : ℕ) → count c live ≡ count c live')
    → IsCounted live w
    → IsCounted live' w'
IsCounted-same live live' w w' m r same v = record {
  distinct = rw m v.distinct;
  counted = λ c. ground (arith, m, same c, v.counted c);
  positive = λ c. rw m (v.positive c);
  deferred = λ c h. ground (arith, h, r, same c, v.deferred c);
}

member-keep :
    (c d : ℕ) (xs : List ℕ) → member c (keep (λ x. not (x == d)) xs) ≡ (not (c == d) && member c xs)
member-keep c d [] = ground arith
member-keep c d (x ∷ xs) = ground (arith, member-keep c d xs)

-- The counts after an operation of the client is finished: an entry that comes to 0 goes.
abbrev remaining : ℕ → List (ℕ × ℕ) → List (ℕ × ℕ)
remaining c m = if 0 == (decrement c m).0 then (remove c (decrement c m).1).0 else (decrement c m).1

remaining-AllDistinct : (c : ℕ) (m : List (ℕ × ℕ)) → AllDistinct m → AllDistinct (remaining c m)
unfolding decrement
remaining-AllDistinct c m d = elim (Option-cases (get c m)) [
  | inl p ↦ rw (p, remaining, decrement) (HashMap.remove-AllDistinct c m d)
  | inr (n, p) ↦
      let stays : AllDistinct (insert c (n - 1) m).0 = HashMap.insert-AllDistinct c (n - 1) m d in
      elim (Bool-cases (0 == n - 1)) [
        | inl q ↦
            rw (p, q, remaining, decrement)
              (HashMap.remove-AllDistinct c (insert c (n - 1) m).0 stays)
        | inr q ↦ rw (p, q, remaining, decrement) stays
      ]
]

get-remaining :
    (c d : ℕ) (m : List (ℕ × ℕ))
    → AllDistinct m
    → get d (remaining c m) ≡ (
        if c == d then if 0 == (decrement c m).0 then none else some (decrement c m).0 else get d m)
unfolding decrement
get-remaining c d m h = elim (Option-cases (get c m)) [
  | inl p ↦ ground (arith, p, get-remove c d m h)
  | inr (n, p) ↦ ground (
    arith,
    p,
    get-remove c d (insert c (n - 1) m).0 (HashMap.insert-AllDistinct c (n - 1) m h),
    get-insert c (n - 1) d m,
  )
]

module _ {T : Type 0} where
  remove_or_defer-IsCounted :
      (c : ℕ) (live : List ℕ) (w : Worker T)
      → IsCounted live w
      → IsCounted live (remove_or_defer c w)
  unfolding remove_or_defer release_peer
  remove_or_defer-IsCounted c live w v =
      elim (Bool-cases (0 == unwrap_or (get c w.outstanding_by_client) 0)) [
        | inl p ↦ rw p (record {
          distinct = v.distinct;
          counted = v.counted;
          positive = v.positive;
          deferred = v.deferred;
        })
        | inr p ↦ rw p (record {
          distinct = v.distinct;
          counted = v.counted;
          positive = v.positive;
          deferred = λ d h. ground (arith, h, p, v.counted c, v.deferred d);
        })
      ]

  finish_op-counts :
      (c : ℕ) (w : Worker T)
      → (finish_op c w).outstanding_by_client ≡ remaining c w.outstanding_by_client
  unfolding finish_op drained release_peer release_outstanding
  finish_op-counts c w = ground arith

  finish_op-peers :
      (c : ℕ) (w : Worker T)
      → (finish_op c w).peers ≡ (
          if (0 == (decrement c w.outstanding_by_client).0) && member c w.pending_removal
          then Peers.release c w.peers
          else w.peers)
  unfolding finish_op drained release_peer release_outstanding
  finish_op-peers c w = ground arith

  finish_op-deferred :
      (c : ℕ) (w : Worker T)
      → (finish_op c w).pending_removal ≡ (
          if 0 == (decrement c w.outstanding_by_client).0
          then keep (λ x. not (x == c)) w.pending_removal
          else w.pending_removal)
  unfolding finish_op drained release_peer release_outstanding
  finish_op-deferred c w = ground arith

  pub finish_op-pending : (c : ℕ) (w : Worker T) → (finish_op c w).pending ≡ w.pending
  unfolding finish_op drained release_peer release_outstanding
  finish_op-pending c w = ground arith

  pub finish_op-completions : (c : ℕ) (w : Worker T) → (finish_op c w).completions ≡ w.completions
  unfolding finish_op drained release_peer release_outstanding
  finish_op-completions c w = ground arith

  pub remove_or_defer-pending : (c : ℕ) (w : Worker T) → (remove_or_defer c w).pending ≡ w.pending
  unfolding remove_or_defer release_peer
  remove_or_defer-pending c w = ground arith

  pub remove_or_defer-completions :
      (c : ℕ) (w : Worker T) → (remove_or_defer c w).completions ≡ w.completions
  unfolding remove_or_defer release_peer
  remove_or_defer-completions c w = ground arith

  decrement_live :
      (c : ℕ) (live : List ℕ) (w : Worker T)
      → IsCounted (c ∷ live) w
      → (decrement c w.outstanding_by_client).0 ≡ count c live
  unfolding decrement
  decrement_live c live w v = ground (arith, v.counted c)

  finish_op-IsCounted :
      (c : ℕ) (live : List ℕ) (w : Worker T)
      → IsCounted (c ∷ live) w
      → IsCounted live (finish_op c w)
  finish_op-IsCounted c live w v = record {
    distinct =
        rw (finish_op-counts c w) (remaining-AllDistinct c w.outstanding_by_client v.distinct);
    counted = λ d. ground (
      arith,
      finish_op-counts c w,
      get-remaining c d w.outstanding_by_client v.distinct,
      decrement_live c live w v,
      v.counted d,
    );
    positive = λ d. ground (
      arith,
      finish_op-counts c w,
      get-remaining c d w.outstanding_by_client v.distinct,
      v.positive d,
    );
    deferred = λ d h. ground (
      arith,
      h,
      finish_op-deferred c w,
      decrement_live c live w v,
      member-keep d c w.pending_removal,
      v.deferred d,
    );
  }

  -- Finishing an operation of a client keeps the accounts, and the client's peer is let go of exactly if
  -- that was the last of its operations and its removal had been deferred; every peer else stays as
  -- it was.
  pub finish_op_lem :
      (c : ℕ) (live : List ℕ) (w : Worker T)
      → IsCounted (c ∷ live) w
      → IsCounted live (finish_op c w)
        × ((finish_op c w).peers ≡ (
            if (0 == count c live) && member c w.pending_removal
            then Peers.release c w.peers
            else w.peers))
  finish_op_lem c live w v =
      (finish_op-IsCounted c live w v, rw (sym (decrement_live c live w v)) (finish_op-peers c w))

  -- A removal is done at once exactly if the client has nothing outstanding, and else it is
  -- deferred, with the peers as they were; and the accounts are kept.
  pub remove_or_defer_lem :
      (c : ℕ) (live : List ℕ) (w : Worker T)
      → IsCounted live w
      → IsCounted live (remove_or_defer c w)
        × ((remove_or_defer c w).peers
            ≡ (if 0 == count c live then Peers.release c w.peers else w.peers))
        × (member c (remove_or_defer c w).pending_removal
            ≡ (if 0 == count c live then member c w.pending_removal else true))
  unfolding remove_or_defer release_peer
  remove_or_defer_lem c live w v = (
    remove_or_defer-IsCounted c live w v,
    ground (arith, v.counted c),
    ground (arith, v.counted c),
  )
