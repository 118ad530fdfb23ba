-- ===== src/Numbering/Tests.antt =====
-- The numbering service at concrete inputs.
use inventory_pos.Common.{ℕ, zero, suc, ◌≡◌, refl, ◌≢◌, List, [], ◌∷◌, arith, ◌↔◌}
use inventory_pos.Common.Effects.{err, internal}
use inventory_pos.Common.Text.{codes}
use inventory_pos.Numbering.{DocumentType, Day, Outcome, row, refused, lost, generate}
use inventory_pos.Numbering.Unique.{Request, Distinct, issued, issued-Distinct}
use inventory_pos.Numbering.Retry.{generate-err_iff}
use inventory_pos.Numbering.Format.{format_document_number-injective}

abbrev day : Day
day = record { year = 2026; month = 3; day = 9 }

abbrev flaky : ℕ → Outcome
flaky zero = row
flaky (suc zero) = refused
flaky (suc (suc zero)) = lost
flaky _ = row

abbrev requests : List Request
requests =
    record { db = λ n. row; type = DocumentType.po; date = day }
    ∷ record { db = flaky; type = DocumentType.po; date = day }
    ∷ record { db = λ n. refused; type = DocumentType.po; date = day }
    ∷ record { db = λ n. row; type = DocumentType.shf; date = day }
    ∷ []

-- The lost answer leaves a gap, and the refused request gives nothing.
requests-issued :
    issued requests []
    ≡ codes "PO-202604-00001" ∷ codes "PO-202604-00003" ∷ codes "SHF-20260409-00001" ∷ []
unfolding issued generate
requests-issued = refl

issued-Distinct_example : Distinct (issued requests [])
issued-Distinct_example = issued-Distinct requests []

generate-err_iff_example :
    ((generate flaky DocumentType.pr day []).0 ≡ err internal)
    ↔ ((flaky 1 ≢ row) × (flaky 2 ≢ row) × (flaky 3 ≢ row))
generate-err_iff_example = generate-err_iff flaky DocumentType.pr day []

format_document_number-injective_example :
    (DocumentType.po ≡ DocumentType.po) × (codes "202604" ≡ codes "202604") × (◌≡◌ {A = ℕ} 7 7)
format_document_number-injective_example =
    format_document_number-injective DocumentType.po DocumentType.po (codes "202604")
      (codes "202604") 7 7 (omega arith) (omega arith) refl
