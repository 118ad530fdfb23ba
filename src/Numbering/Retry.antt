-- ===== src/Numbering/Retry.antt =====
-- The retry loop of `generate` in numbering.service.ts: when it answers, and what it does to the
-- counters when it does not.
use inventory_pos.Common.{ℕ, ◌≡◌, ◌≢◌, arith, ◌+◌, ◌↔◌}
use inventory_pos.Common.Effects.{ok, err, internal}
use inventory_pos.Numbering.{
  DocumentType, prefix, Day, build_period, format_document_number, Sequences, last_value_of, upsert,
  Outcome, row, refused, generate,
}
use inventory_pos.Numbering.Unique.{last_value_of-upsert_self}

-- `generate` throws exactly when none of its three queries answers.
pub generate-err_iff :
    (db : ℕ → Outcome) (t : DocumentType) (d : Day) (s : Sequences)
    → ((generate db t d s).0 ≡ err internal) ↔ ((db 1 ≢ row) × (db 2 ≢ row) × (db 3 ≢ row))
unfolding generate
generate-err_iff db t d s = (λ e. ground arith, λ none_answers. ground arith)

-- If every query is refused before it writes, `generate` throws and the counters are as before.
pub generate_refused :
    (db : ℕ → Outcome) (t : DocumentType) (d : Day) (s : Sequences)
    → db 1 ≡ refused
    → db 2 ≡ refused
    → db 3 ≡ refused
    → generate db t d s ≡ (err internal, s)
unfolding generate
generate_refused db t d s a b c = ground arith

-- If the first query answers, the number is the next one of the day's or the month's counter.
pub generate_first :
    (db : ℕ → Outcome) (t : DocumentType) (d : Day) (s : Sequences)
    → db 1 ≡ row
    → let p = build_period t d in
      generate db t d s
      ≡ (ok (format_document_number t p (last_value_of (prefix t) p s + 1)), upsert (prefix t) p s)
unfolding generate
generate_first db t d s a =
    ground (arith, last_value_of-upsert_self (prefix t) (build_period t d) s)
