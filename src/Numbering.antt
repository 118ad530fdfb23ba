-- ===== src/Numbering.antt =====
-- src/services/numbering/numbering.service.ts: the document numbers and their counters. The upsert on
-- `document_sequences` runs in the database, which may refuse it, or carry it out and lose the answer.
pub mod Format
pub mod Unique
pub mod Retry
mod Tests
use inventory_pos.Common.{
  ℕ, zero, suc, ◌+◌, Bool, true, false, ◌&&◌, List, [], ◌∷◌, ◌++◌, if◌then◌else◌,
}
use inventory_pos.Common.Effects.{Result, ok, err, internal, Action}
use inventory_pos.Common.Text.{Text, codes, text_eq, decimal, pad_start}

pub data DocumentType : Type 0 where
  pr po gr inv pos rcv pv je sa sop so do_ sr cn dn to shf pret : DocumentType

-- The enum's values.
abbrev pub prefix : DocumentType → Text
prefix pr = codes "PR"
prefix po = codes "PO"
prefix gr = codes "GR"
prefix inv = codes "INV"
prefix pos = codes "POS"
prefix rcv = codes "RCV"
prefix pv = codes "PV"
prefix je = codes "JE"
prefix sa = codes "SA"
prefix sop = codes "SOP"
prefix so = codes "SO"
prefix do_ = codes "DO"
prefix sr = codes "SR"
prefix cn = codes "CN"
prefix dn = codes "DN"
prefix to = codes "TO"
prefix shf = codes "SHF"
prefix pret = codes "PRET"

-- DAILY_PERIOD_TYPES
abbrev pub is_daily : DocumentType → Bool
is_daily pos = true
is_daily shf = true
is_daily _ = false

-- The local calendar fields of a Date; `month` counts from 0, as `getMonth` does.
pub record Day : Type 0 where
  pub year : ℕ
  pub month : ℕ
  pub day : ℕ

unfoldable pub build_period : DocumentType → Day → Text
unfolding pad_start decimal
build_period type date =
    let month = pad_start 2 (decimal (date.month + 1)) in
    if is_daily type
    then decimal date.year ++ (month ++ pad_start 2 (decimal date.day))
    else decimal date.year ++ month

unfoldable pub format_document_number : DocumentType → Text → ℕ → Text
unfolding pad_start decimal
format_document_number type period seq =
    prefix type ++ 45 ∷ (period ++ 45 ∷ pad_start 5 (decimal seq))

-- A row of `document_sequences`; (prefix, period) is its primary key.
pub record Sequence : Type 0 where
  pub prefix : Text
  pub period : Text
  pub last_value : ℕ

abbrev pub Sequences : Type 0
Sequences = List Sequence

abbrev pub has_key : Text → Text → Sequence → Bool
has_key p q row = text_eq p row.prefix && text_eq q row.period

-- The last value given out for a key, 0 if none was.
abbrev pub last_value_of : Text → Text → Sequences → ℕ
last_value_of p q [] = 0
last_value_of p q (row ∷ rows) = if has_key p q row then row.last_value else last_value_of p q rows

-- INSERT ... ON CONFLICT DO UPDATE SET last_value = last_value + 1
abbrev pub upsert : Text → Text → Sequences → Sequences
upsert p q [] = record { prefix = p; period = q; last_value = 1 } ∷ []
upsert p q (row ∷ rows) =
    if has_key p q row
    then record row { last_value = row.last_value + 1 } ∷ rows
    else row ∷ upsert p q rows

-- How one query ends: with its row, refused before it wrote, or written and the answer lost. A reply
-- with no row is a thrown error too, after the write.
pub data Outcome : Type 0 where
  row refused lost : Outcome

unfoldable pub atomic_increment : Outcome → Text → Text → Action Sequences ℕ
atomic_increment row p q s = let s' = upsert p q s in (ok (last_value_of p q s'), s')
atomic_increment refused p q s = (err internal, s)
atomic_increment lost p q s = (err internal, upsert p q s)

abbrev pub max_retries : ℕ
max_retries = 3

-- The retry loop from its `attempt` on, with `left` attempts to go; the delays are left out.
unfoldable pub attempt_from : (ℕ → Outcome) → DocumentType → Text → ℕ → ℕ → Action Sequences Text
unfolding atomic_increment format_document_number
attempt_from db type period zero attempt s = (err internal, s)
attempt_from db type period (suc left) attempt s =
    let (r, s') = atomic_increment (db attempt) (prefix type) period s in
    let retry = attempt_from db type period left (attempt + 1) s' in
    elim r [ ok seq ↦ (ok (format_document_number type period seq), s') | err e ↦ retry ]

-- `db` says how the query of each attempt ends, the first being 1; `date` is the given date or today.
unfoldable pub generate : (ℕ → Outcome) → DocumentType → Day → Action Sequences Text
unfolding build_period attempt_from
generate db type date = attempt_from db type (build_period type date) max_retries 1
