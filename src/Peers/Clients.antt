-- ===== src/Peers/Clients.antt =====
-- The operations on what the clients hold keep the invariant.
use vdma.Prelude.{
  ℕ, ◌<◌, refl, List, ◌∷◌, ◌++◌, Option, Bool, not, arith, ◌==◌, keep, count, count-append,
}
use vdma.Arc.{Store, Balanced, Balanced-same, values-release_all}
use vdma.Arc
use vdma.HashMap.{get, insert, remove, values, the_value, count-insert, count-remove, count-keep}
use vdma.HashMap
use vdma.Peers.{PeerAddresses, hold, release, evict, drop_entry}
use vdma.Peers.Valid.{holders, IsValid, Lessens-IsValid}

pub clone-IsValid :
    (e : ℕ) (ls : List ℕ) (s : PeerAddresses)
    → 0 < count e (holders ls s)
    → IsValid ls s
    → IsValid (e ∷ ls) (record s { arcs = Arc.clone e s.arcs })
unfolding Arc.clone
clone-IsValid e ls s h v =
    Lessens-IsValid ls (e ∷ ls) s (record s { arcs = Arc.clone e s.arcs })
      (
        refl,
        refl,
        refl,
        refl,
        λ i k. ground (
          arith,
          k,
          h,
          count-append i (values s.by_client) (e ∷ ls),
          count-append i (values s.by_client) ls,
        ),
      )
      (Balanced-same (e ∷ holders ls s) (holders (e ∷ ls) s) (Arc.clone e s.arcs)
        (λ i. omega (
          arith,
          count-append i (values s.by_client) (e ∷ ls),
          count-append i (values s.by_client) ls,
        ))
        (Arc.clone-Balanced e (holders ls s) s.arcs h v.accounted))
      v.clients v

pub drop_entry-IsValid :
    (e : ℕ) (ls : List ℕ) (s : PeerAddresses) → IsValid (e ∷ ls) s → IsValid ls (drop_entry e s)
unfolding drop_entry Arc.release
drop_entry-IsValid e ls s v =
    Lessens-IsValid (e ∷ ls) ls s (drop_entry e s)
      (
        refl,
        refl,
        refl,
        refl,
        λ i k. ground (
          arith,
          k,
          count-append i (values s.by_client) (e ∷ ls),
          count-append i (values s.by_client) ls,
        ),
      )
      (Arc.release-Balanced e (holders ls s) s.arcs (
        Balanced-same (holders (e ∷ ls) s) (e ∷ holders ls s) s.arcs
          (λ i. omega (
            arith,
            count-append i (values s.by_client) (e ∷ ls),
            count-append i (values s.by_client) ls,
          ))
          v.accounted))
      v.clients v

pub hold-IsValid :
    (client e : ℕ) (ls : List ℕ) (s : PeerAddresses)
    → IsValid (e ∷ ls) s
    → IsValid ls (hold client e s)
unfolding hold
hold-IsValid client e ls s v =
    Lessens-IsValid (e ∷ ls) ls s (hold client e s)
      (
        refl,
        refl,
        refl,
        values-release_all (the_value out.1) s.arcs,
        λ i k. omega (
          arith,
          k,
          count-insert i client e s.by_client,
          count-append i (values s.by_client) (e ∷ ls),
          count-append i (values out.0) ls,
        ),
      )
      (Arc.release_all-Balanced (the_value out.1) (values out.0 ++ ls) s.arcs (
        Balanced-same (holders (e ∷ ls) s) (the_value out.1 ++ (values out.0 ++ ls)) s.arcs
          (λ i. omega (
            arith,
            count-insert i client e s.by_client,
            count-append i (values s.by_client) (e ∷ ls),
            count-append i (the_value out.1) (values out.0 ++ ls),
            count-append i (values out.0) ls,
          ))
          v.accounted))
      (HashMap.insert-AllDistinct client e s.by_client v.clients) v
  where
    out : List (ℕ × ℕ) × Option ℕ
    out = insert client e s.by_client

pub release-IsValid :
    (client : ℕ) (ls : List ℕ) (s : PeerAddresses) → IsValid ls s → IsValid ls (release client s)
unfolding release
release-IsValid client ls s v =
    Lessens-IsValid ls ls s (release client s)
      (
        refl,
        refl,
        refl,
        values-release_all (the_value out.1) s.arcs,
        λ i k. omega (
          arith,
          k,
          count-remove i client s.by_client,
          count-append i (values s.by_client) ls,
          count-append i (values out.0) ls,
        ),
      )
      (Arc.release_all-Balanced (the_value out.1) (values out.0 ++ ls) s.arcs (
        Balanced-same (holders ls s) (the_value out.1 ++ (values out.0 ++ ls)) s.arcs
          (λ i. omega (
            arith,
            count-remove i client s.by_client,
            count-append i (values s.by_client) ls,
            count-append i (the_value out.1) (values out.0 ++ ls),
            count-append i (values out.0) ls,
          ))
          v.accounted))
      (HashMap.remove-AllDistinct client s.by_client v.clients) v
  where
    out : List (ℕ × ℕ) × Option ℕ
    out = remove client s.by_client

pub evict-IsValid :
    (stale : ℕ) (ls : List ℕ) (s : PeerAddresses) → IsValid ls s → IsValid ls (evict stale s)
unfolding evict
evict-IsValid stale ls s v =
    Lessens-IsValid ls ls s (evict stale s)
      (
        refl,
        refl,
        refl,
        values-release_all gone s.arcs,
        λ i k. omega (
          arith,
          k,
          count-keep i stays s.by_client,
          count-append i (values s.by_client) ls,
          count-append i (values (keep stays s.by_client)) ls,
        ),
      )
      (Arc.release_all-Balanced gone (values (keep stays s.by_client) ++ ls) s.arcs (
        Balanced-same (holders ls s) (gone ++ (values (keep stays s.by_client) ++ ls)) s.arcs
          (λ i. omega (
            arith,
            count-keep i stays s.by_client,
            count-append i (values s.by_client) ls,
            count-append i gone (values (keep stays s.by_client) ++ ls),
            count-append i (values (keep stays s.by_client)) ls,
          ))
          v.accounted))
      (HashMap.keep-AllDistinct stays s.by_client v.clients) v
  where
    stays : ℕ × ℕ → Bool
    stays e = not (e.1 == stale)

    gone : List ℕ
    gone = values (keep (λ e. not (stays e)) s.by_client)
