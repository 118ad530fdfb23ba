-- ===== src/Lib.antt =====
-- The business core of inventory-pos: purchasing, approval, accounting periods, the journal, invoices,
-- payments, stock movements, the point of sale and document numbers, as the services under src/ carry them
-- out on the tables of prisma/schema.prisma.
--
-- A service method is an action (Common.Effects): a function from the tables to a result and the tables
-- afterwards, in the order of the method's own statements, its guards and early throws included. A
-- transaction gives the old tables back when it throws. Calls run one after the other; two that overlap are
-- not modelled, but for the numbering, where the database itself decides how each query ends. Ids and
-- times are numbers, texts are lists of code points. Quantities are in ten-thousandths and money in
-- hundredths, as the columns store them, and the arithmetic on them is exact where the code computes with
-- doubles, but for the tests of a difference against 0.01, which are made in doubles (Common.Double), since
-- they depend on the rounding. The halvings that round to 53 bits are bounded by 128, which no sum of amounts
-- of 18 digits needs. What comes from outside (the master data, permissions, the calendar of the machine, new ids,
-- the answers of the numbering queries) is an argument.
--
-- The parts and their files:
--   Numbering: src/services/numbering/numbering.service.ts. `generate` tries three times, as MAX_RETRIES
--     says; the recursion is on the attempts that are left, so it needs no other bound.
--   Master: the checks of branches, suppliers, warehouses, products and units that the services share.
--   Purchase/Order: src/modules/purchase/services/purchase-order.service.ts. Create and Receive hold
--     `create` and `receiveGoods`; Steps shows each other call to be one step of a state machine; Duties
--     reads off it who approved.
--   Purchase/Request: src/modules/purchase/services/purchase-request.service.ts, built alike.
--   Purchase/Matching: src/modules/purchase/services/three-way-matching.service.ts.
--   Purchase/Receipt: src/modules/purchase/services/goods-receipt.service.ts, on the orders, the stock ledger
--     and the books. Confirm is the transaction of `confirm`; Twice puts it after `receiveGoods`.
--   Approval: src/services/approval-engine/approval-engine.service.ts, on the orders of Purchase and the
--     payments of Invoicing. Calls mixes it with the order service.
--   Accounting/Period: src/services/period-manager/period-manager.service.ts.
--   Accounting/Journal: src/services/journal-engine/journal-engine.service.ts. It asks the period manager
--     before it posts, and takes its numbers from Numbering. Books mixes the two services.
--   Invoicing/Invoice: src/modules/invoicing/services/invoice.service.ts, from posting on. It calls the
--     matching before it posts and the journal engine inside its transactions.
--   Invoicing/Payment: src/modules/invoicing/services/payment.service.ts, on the payments, the invoices and
--     the ledger. Its loop over the allocations is in Invoicing/Allocations, and the journal entries of its
--     reversal in Invoicing/Reversal. Mirror follows the errors of that reversal. Its Calls mixes it with the invoice service.
--   Inventory: the stock ledger of src/modules/inventory/services/inventory.service.ts. Stock holds the
--     tables and the retry loop of Transfer and Adjust: three attempts, as the source says, with the recursion
--     on those that are left. Refines runs the three kinds of call in any order.
--     Opname is src/modules/inventory/services/stock-opname.service.ts, which calls
--     Adjust; the lines of a count are in CountLines.
--   Accounting/Events: src/services/journal-engine/journal-event.builder.ts, the builder and its factory.
--   Pos: src/modules/pos/services/pos.service.ts, shifts and transactions with their items, payments and
--     voiding; it writes the stock ledger and calls the journal engine. Adding an item and voiding use the
--     retry loop of Inventory/Stock.
--   Common: actions, tables, texts and integers, and the rules by which `search` follows a do block: Does
--     for what one call does, Keeps for an invariant, Avoids for an error that is not thrown.
--
-- Not modelled: paged searches, reports, log lines and caches, which change no state; creating invoices,
-- the sale in one call (`processFullTransaction`), purchase and sales returns, sales orders and the master data's upkeep;
-- authentication and the web layer, which are the framework's; the user interface.
pub mod Common
pub mod Numbering
pub mod Master
pub mod Purchase
pub mod Invoicing
pub mod Approval
pub mod Accounting
pub mod Inventory
pub mod Pos
