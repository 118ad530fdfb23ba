-- ===== src/Accounting/Events/Tests.antt =====
-- Journal events at concrete inputs.
use inventory_pos.Common.{◌≡◌, refl, ◌↔◌, ◌≤◌, true, none, some, List, [], ◌∷◌}
use inventory_pos.Common.Effects.{ok}
use inventory_pos.Common.Int.{pos, ◌-ℤ◌, abs}
use inventory_pos.Common.Text.{codes, decimal}
use inventory_pos.Accounting.Store.{JournalTemplate}
use inventory_pos.Accounting.Journal.{
  BusinessEvent, total_debit, total_credit, validate_balance, lines_of,
}
use inventory_pos.Accounting.Events.{build}
use inventory_pos.Accounting.Events.Factory.{Document, SalePayment}
use inventory_pos.Accounting.Events.Calls.{FactoryCall, pos_sale, create}
use inventory_pos.Accounting.Events.Sums.{paid, charged}
use inventory_pos.Accounting.Events.Balanced.{create-validate_balance_iff}

abbrev document : Document
document = record {
  id = 4;
  number = codes "POS-20260401-00001";
  period_id = 7;
  entry_date = 100;
  created_by = 3;
}

abbrev payments : List SalePayment
payments =
    record { account_id = 11; amount = pos 8_000; description = none }
    ∷ record { account_id = 12; amount = pos 3_100; description = some (codes "EDC") }
    ∷ []

abbrev sale : FactoryCall
sale = pos_sale document payments 21 22 (pos 10_000) (pos 1_100)

abbrev template : JournalTemplate
template = record {
  event_type = codes "POS_SALE";
  debit_account_id = 1;
  credit_account_id = 2;
  is_active = true;
}

abbrev event : BusinessEvent
event = record {
  event_type = codes "POS_SALE";
  reference_type = codes "POS";
  reference_id = 4;
  reference_number = codes "POS-20260401-00001";
  entry_date = 100;
  period_id = 7;
  amount = pos 11_100;
  lines =
      record {
        account_id = 21;
        cost_center_id = none;
        description = some (codes "Pendapatan Penjualan");
        debit = pos 0;
        credit = pos 10_000;
      }
      ∷ record {
        account_id = 22;
        cost_center_id = none;
        description = some (codes "PPN Keluaran");
        debit = pos 0;
        credit = pos 1_100;
      }
      ∷ record {
        account_id = 11;
        cost_center_id = none;
        description = none;
        debit = pos 8_000;
        credit = pos 0;
      }
      ∷ record {
        account_id = 12;
        cost_center_id = none;
        description = some (codes "EDC");
        debit = pos 3_100;
        credit = pos 0;
      }
      ∷ [];
  created_by = 3;
}

sale-created : create decimal sale ≡ ok event
unfolding create build total_debit total_credit
sale-created = refl

create-validate_balance_iff_example :
    (validate_balance (lines_of event template) ≡ true)
    ↔ (abs (paid payments -ℤ charged (pos 10_000) (pos 1_100)) ≤ 1)
create-validate_balance_iff_example =
    create-validate_balance_iff decimal sale event template sale-created
