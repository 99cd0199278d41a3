-- ===== src/Pipeline/Messages.antt =====
-- The invariant, kept by the messages of the channel.
use vdma.Prelude.{
  ◌==◌, ℕ, ◌≡◌, refl, List, [], ◌∷◌, arith, count, count-append, inl, inr, length, subst, sym, ap,
}
use vdma.Errors.{Result, ok, err, DmaError}
use vdma.HashMap.{the_value}
use vdma.Transfer.Prepare.{prepare-eq_ok, prepare-local_lease}
use vdma.Peers
use vdma.Peers.Clients.{release-IsValid}
use vdma.Endpoint.{LibfabricEndpoint, insert_peer}
use vdma.Endpoint.Held.{IsHeld, Inserted, insert_peer-Inserted, pin_region-IsHeld}
use vdma.Posting.{Answers}
use vdma.Posting.Posted.{IsHeld-same, drop_peer-IsHeld}
use vdma.Worker.{Worker, accept, remove_or_defer}
use vdma.Worker.Accounts.{IsCounted, IsCounted-same, remove_or_defer_lem, remove_or_defer-pending}
use vdma.Worker.Intake.{accept_lem, accept-peers}
use vdma.Pipeline.{
  Setting, WorkerMessage, transfers, adds_peer, removes_peer, registers, Pipeline, endpoint,
  set_endpoint, drop_inserted, take_in, intake, pop_pending,
}
use vdma.Pipeline.Places.{client_of, lease_of, live, hashing, leases, count-live_queued}
use vdma.Pipeline.Sound.{IsValid-if, IsSound}

module _ {T : Type 0} (setting : Setting T) (answers : ℕ → Answers) where
  endpoint_set-IsSound :
      (e : LibfabricEndpoint) (s : Pipeline T)
      → IsSound 0 s
      → IsHeld [] (leases s) e
      → IsSound 0 (set_endpoint e s)
  unfolding set_endpoint
  endpoint_set-IsSound e s v h = record {
    counted = IsCounted-same _ _ s.accounts _ refl refl (λ c. refl) v.counted;
    held = h;
    depth = v.depth;
  }

  drop_inserted-IsHeld :
      (client : ℕ) (address ls : List ℕ) (r : Result ℕ DmaError × LibfabricEndpoint)
      → Inserted ls client address r
      → IsHeld [] ls (drop_inserted r.0 r.1)
  drop_inserted-IsHeld client address ls (ok e, endpoint) (v, _) = drop_peer-IsHeld e ls endpoint v
  drop_inserted-IsHeld client address ls (err e, endpoint) v = v

  -- Other accounts, which hold as many leases and count what they hold.
  accepted :
      (s : Pipeline T) (w : Worker T)
      → IsSound 0 s
      → w.peers ≡ s.accounts.peers
      → IsCounted (live client_of (record s { accounts = w })) w
      → ((i : ℕ) → count i (leases s) ≡ count i (leases (record s { accounts = w })))
      → IsSound 0 (record s { accounts = w })
  accepted s w v peers counted same = record {
    counted = counted;
    held = record {
      peers = rw peers v.held.peers;
      regions = (IsHeld-same [] _ _ (endpoint s) same v.held).regions;
    };
    depth = v.depth;
  }

  pub take_in-IsSound :
      (m : WorkerMessage T) (s : Pipeline T) → IsSound 0 s → IsSound 0 (take_in setting answers m s)
  unfolding take_in
  take_in-IsSound (transfers request) s v =
      let w = accept setting.source setting.allocate setting.quiesce_writes request s.accounts in
      let s' = record s { accounts = w } in
      let peers =
        accept-peers setting.source setting.allocate setting.quiesce_writes request s.accounts in
      elim (accept_lem setting.source setting.allocate setting.quiesce_writes request
        (live client_of s) s.accounts v.counted) [
          | inl (p, e, queued, _, _, counted) ↦
              let (_, _, _, _, own, _) =
                prepare-eq_ok setting.source setting.allocate request setting.quiesce_writes p e in
              let free =
                prepare-local_lease setting.source setting.allocate request setting.quiesce_writes p
                  e in
              accepted s w v peers
                (IsCounted-same _ _ w w refl refl
                  (λ c. ground (
                    arith,
                    own,
                    ap (λ q. count c (live client_of (pop_pending q s))) queued,
                    count-live_queued c client_of p s,
                  ))
                  counted)
                (λ i. omega (
                  arith,
                  ap (λ q. count i (live lease_of (pop_pending q s))) queued,
                  count-live_queued i lease_of p s,
                  ap (λ l. count i (the_value l)) free,
                  count-append i (live lease_of s) (hashing lease_of s),
                  count-append i (live lease_of s') (hashing lease_of s'),
                ))
          | inr (done, e, same, _, _, counted) ↦
              accepted s w v peers
                (IsCounted-same _ _ w w refl refl
                  (λ c. ap (λ q. count c (live client_of (pop_pending q s))) (sym same)) counted)
                (λ i. ap (λ q. count i (leases (pop_pending q s))) (sym same))
        ]
  take_in-IsSound (adds_peer client address) s v =
      let (inserted, e) = insert_peer (answers s.asked).fi_av_insert client address (endpoint s) in
      let w = endpoint_set-IsSound (drop_inserted inserted e) s v (
        drop_inserted-IsHeld client address (leases s) (inserted, e)
          (insert_peer-Inserted (answers s.asked).fi_av_insert client address (leases s)
            (endpoint s) v.held)) in
      record { counted = w.counted; held = w.held; depth = w.depth }
  take_in-IsSound (removes_peer client) s v =
      let w = remove_or_defer client s.accounts in
      let (counted, peers, _) =
        remove_or_defer_lem client (live client_of s) s.accounts v.counted in
      let same : w.pending ≡ s.accounts.pending = remove_or_defer-pending client s.accounts in
      record {
        counted =
            IsCounted-same _ _ w w refl refl
              (λ c. ap (λ q. count c (live client_of (pop_pending q s))) (sym same)) counted;
        held = record {
          peers = subst (Peers.Valid.IsValid []) (sym peers) (
              IsValid-if (0 == count client (live client_of s))
                (release-IsValid client [] s.accounts.peers v.held.peers) v.held.peers);
          regions =
              (IsHeld-same [] _ _ (endpoint s)
                (λ i. ap (λ q. count i (leases (pop_pending q s))) (sym same)) v.held).regions;
        };
        depth = v.depth;
      }
  take_in-IsSound (registers base length) s v =
      let w = endpoint_set-IsSound _ s v (
        pin_region-IsHeld setting.provider (answers s.asked).fi_mr_reg base length (leases s)
          (endpoint s) v.held) in
      record { counted = w.counted; held = w.held; depth = w.depth }

  pub intake-IsSound :
      (ms : List (WorkerMessage T)) (s : Pipeline T)
      → IsSound 0 s
      → IsSound 0 (intake setting answers ms s)
  unfolding intake
  intake-IsSound [] s v = v
  intake-IsSound (m ∷ ms) s v = intake-IsSound ms _ (take_in-IsSound m s v)
