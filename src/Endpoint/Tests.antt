-- ===== src/Endpoint/Tests.antt =====
-- A completion queue that has three completions and then none.
use vdma.Prelude.{ℕ, zero, suc, ◌≡◌, refl, [], ◌∷◌, none, some, arith}
use vdma.Prelude.Int.{pos, negsuc}
use vdma.Errors.{ok, err, fabric, text}
use vdma.Endpoint.Reap.{
  CqRead, Documented, reap, reap_from, turn, push_entries, push_error, non_null_context, read_error,
}
use vdma.Endpoint.Reap.Bounds.{Reaps}
use vdma.Endpoint.Reap.Bounds

program : Unit {0}
unfolding reap reap_from turn push_entries push_error non_null_context read_error
program = tt

abbrev nothing : CqRead
nothing = record {
  read = negsuc 10;
  entries = [];
  error_read = pos 0;
  error_context = none;
  completion_error = fabric (text "none");
}

abbrev one : CqRead
one = record nothing { read = pos 1; entries = some 8 ∷ [] }

-- The first turn reads one, if it may read any.
abbrev fi_cq_read : ℕ → ℕ → CqRead
fi_cq_read zero zero = nothing
fi_cq_read zero (suc want) = one
fi_cq_read (suc n) want = nothing

fi_cq_read-Documented : Documented 11 259 fi_cq_read
fi_cq_read-Documented zero zero = (omega arith, refl)
fi_cq_read-Documented zero (suc want) = (omega arith, refl)
fi_cq_read-Documented (suc n) want = (omega arith, refl)

reap_lem_example : Reaps 11 259 fi_cq_read 10 0 [] (reap 11 259 fi_cq_read [] 10)
reap_lem_example = Bounds.reap_lem 11 259 fi_cq_read [] 10 fi_cq_read-Documented (omega arith)

reaped : reap 11 259 fi_cq_read [] 10 ≡ some ((8, ok tt) ∷ [], ok tt)
unfolding program
reaped = refl

-- A null pointer among the entries: those behind it are read and not reaped.
abbrev with_null : ℕ → ℕ → CqRead
with_null n want = record nothing { read = pos 3; entries = some 8 ∷ none ∷ some 9 ∷ [] }

lost :
    reap 11 259 with_null [] 10
    ≡ some ((8, ok tt) ∷ [], err (fabric (text "completion carried a null op_context")))
unfolding program
lost = refl
