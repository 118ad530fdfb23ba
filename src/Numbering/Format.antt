-- ===== src/Numbering/Format.antt =====
-- What a document number says: formatDocumentNumber and buildPeriod of numbering.service.ts are read
-- back without loss.
use inventory_pos.Common.{
  ℕ, ◌+◌, ◌≡◌, refl, inl, inr, Bool-cases, ◌≢◌, sym, ap, ◌∙◌, Option, none, some, ◌++◌,
  if◌then◌else◌, All, All-append, arith, [], ◌∷◌,
}
use inventory_pos.Common.Text.{
  Text, codes, text_eq, decimal, pad_start, value, value-pad_start, IsDigit, decimal-IsDigit,
  pad_start-IsDigit, split_at_dash,
}
use inventory_pos.Numbering.{
  DocumentType, prefix, Day, is_daily, build_period, format_document_number,
}

-- The document type that a prefix stands for.
abbrev pub type_of : Text → Option DocumentType
type_of s =
    if text_eq s (codes "PR")
    then some DocumentType.pr
    else if text_eq s (codes "PO")
    then some DocumentType.po
    else if text_eq s (codes "GR")
    then some DocumentType.gr
    else if text_eq s (codes "INV")
    then some DocumentType.inv
    else if text_eq s (codes "POS")
    then some DocumentType.pos
    else if text_eq s (codes "RCV")
    then some DocumentType.rcv
    else if text_eq s (codes "PV")
    then some DocumentType.pv
    else if text_eq s (codes "JE")
    then some DocumentType.je
    else if text_eq s (codes "SA")
    then some DocumentType.sa
    else if text_eq s (codes "SOP")
    then some DocumentType.sop
    else if text_eq s (codes "SO")
    then some DocumentType.so
    else if text_eq s (codes "DO")
    then some DocumentType.do_
    else if text_eq s (codes "SR")
    then some DocumentType.sr
    else if text_eq s (codes "CN")
    then some DocumentType.cn
    else if text_eq s (codes "DN")
    then some DocumentType.dn
    else if text_eq s (codes "TO")
    then some DocumentType.to
    else if text_eq s (codes "SHF")
    then some DocumentType.shf
    else if text_eq s (codes "PRET")
    then some DocumentType.pret
    else none

type_of-prefix : (t : DocumentType) → type_of (prefix t) ≡ some t
type_of-prefix DocumentType.pr = refl
type_of-prefix _ = refl

abbrev NotDash : ℕ → Type 0
NotDash c = c ≢ 45

prefix-NotDash : (t : DocumentType) → All NotDash (prefix t)
prefix-NotDash DocumentType.pr = omega arith
prefix-NotDash _ = omega arith

pub prefix-injective : (t u : DocumentType) → prefix t ≡ prefix u → t ≡ u
prefix-injective t u e = cc (type_of-prefix t, type_of-prefix u, ap type_of e)

All-NotDash : (s : Text) → All IsDigit s → All NotDash s
All-NotDash [] h = tt
All-NotDash (c ∷ s) h = (omega arith, All-NotDash s h.1)

pub build_period-IsDigit : (t : DocumentType) (d : Day) → All IsDigit (build_period t d)
unfolding build_period
build_period-IsDigit t d =
    let month = pad_start 2 (decimal (d.month + 1)) in
    let last = pad_start 2 (decimal d.day) in
    let two =
      All-append IsDigit month last (pad_start-IsDigit 2 (d.month + 1))
        (pad_start-IsDigit 2 d.day) in
    let daily = All-append IsDigit (decimal d.year) (month ++ last) (decimal-IsDigit d.year) two in
    let monthly =
      All-append IsDigit (decimal d.year) month (decimal-IsDigit d.year)
        (pad_start-IsDigit 2 (d.month + 1)) in
    elim (Bool-cases (is_daily t)) [
      | inl yes_daily ↦ rw yes_daily daily
      | inr no_daily ↦ rw no_daily monthly
    ]

-- Two document numbers of periods made of digits are the same text only if type, period and counter
-- are the same.
pub format_document_number-injective :
    (t u : DocumentType) (p q : Text) (m n : ℕ)
    → All IsDigit p
    → All IsDigit q
    → format_document_number t p m ≡ format_document_number u q n
    → (t ≡ u) × (p ≡ q) × (m ≡ n)
unfolding format_document_number
format_document_number-injective t u p q m n hp hq e =
    let (types, rest) =
      split_at_dash (prefix t) (prefix u) _ _ (prefix-NotDash t) (prefix-NotDash u) e in
    let (periods, counters) = split_at_dash p q _ _ (All-NotDash p hp) (All-NotDash q hq) rest in
    (
      prefix-injective t u types,
      periods,
      sym (value-pad_start 5 m) ∙ ap value counters ∙ value-pad_start 5 n,
    )
