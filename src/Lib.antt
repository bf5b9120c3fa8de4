-- ===== src/Lib.antt =====
-- Pignus is a platform for collateralised loans on Sequentia: a borrower locks an asset in a
-- covenant coin (the vault), and the coin leaves it only by repayment, liquidation, default or
-- recovery. This library models the parts of pignus/*.py that decide amounts: the terms of a
-- loan, the choice among oracle attestations, the composition of the transactions that close a
-- loan and what a watcher reads of them on the chain and writes to the book.
--
-- Terms (pignus/terms.py): the record LoanTerms, `post_init` for `__post_init__`, the economics
-- (`gross`, `seizure_at`, `surplus_at`, `collateral_value`, `is_liquidatable`) and
-- `verify_funding`, whose two address compilers are parameters.
-- Oracle (pignus/oracle.py): `verify`, `select_threshold` and `liquidatable_slots`. The tagged
-- hash, the attested message and the signature check are a parameter, the record Signing.
-- Tx (pignus/vault.py): outpoints, outputs, the unsigned transaction of `_raw_tx`, Python's dicts
-- from assets to amounts, and the totals of an asset over inputs and outputs.
-- Vault (pignus/vault.py): the class VaultSpender. Vault.Spender has its state and checks
-- (`_pinned`, `_check_vault`, `_held`, `_usable_attestation`, `payout_spk`), Vault.Change has
-- `_change`, Vault.Evidence has `_oracle_evidence`, Vault.Exits has `repay`, `_seizure`,
-- `liquidate`, `call_default` and `recover`. A record Request carries what a call is given: the
-- vault coin, the node's answer to `gettxout`, the funding coins and the script for the change.
-- Vault.Steps, Balance, Outputs and Gates hold proofs.
--
-- Vault2 (pignus/vault2.py): the version 2 loan. Vault2.Terms has V2Terms and `sanity_check`,
-- Vault2.Create has `__post_init__`, `oracle_keys` and `beacon_asset_of`, with SHA-256 a
-- parameter, Vault2.Plan has `liquidation_plan` and `check_liquidation`. The liquidation rule
-- they call is the vendored contracts' (pignus/sequentia_contracts), so Vault2.Rule is a record
-- of its functions and of what its documentation says: the comparisons behind `healthy`, the
-- bound on a seizure, the largest repayment, the checks that an accepted liquidation passed, the
-- answer to one that pays at most the debt, and the widths within which it answers.
-- Vault2.Formed, Created, Signers, Lower, Again, Proposal and Accepted hold proofs. Vault2.Spend
-- has the coins, `_change`, `_tx`, `fee_for` and `_vault_spend`, Vault2.Spend.Compose the
-- composers (`compose_take`, `compose_repay`, `compose_top_up`, `compose_liquidation`,
-- `compose_recover`, `compose_refund`) over a record World of what the node, the wallet, the
-- address derivation and the run of a program answer, and Vault2.Spend.Follow has `follow` on a
-- decoded transaction; a script and an asset go through their bytes (`spelled`) as they enter a
-- transaction. Vault2.Spend.Reads, Held, Followed, Seizure, Seized, Moved and Line hold proofs.
--
-- Repurchase (pignus/repurchase.py): a sale of a restricted asset with a bond for selling it
-- back. Repurchase.Terms has RepurchaseTerms, `bond` and `sanity_check`, and `locktime_open` of
-- pignus/__init__.py; Repurchase.Coins has `_find_output`, `verify_funding` and `verify_leg_one`
-- over a node's answers, the address compiler a parameter; Repurchase.Standing has
-- `repurchase_state`; Repurchase.Settle has RepurchaseSpender with `settle`, `forfeit` and
-- `compose_settlement`; Repurchase.Inspect has `inspect_settlement` on the decoded transaction,
-- where the loop over the outputs is on the list and the shape's slots are a record Places. Sane,
-- Funded, LegOne, Shape, Composed, Paid, Signing and Roundtrip hold proofs.
--
-- Book (pignus/book.py): a record is the list of its fields; `forward_only`, `_rank` and
-- `update_btc_take`, whose clock is an argument, with `find` and `store` for a dict, the numbers
-- of a record being numbers (the source also reads them from texts); Book.Lots has `_holds_lot`,
-- `_lots_left`, `_take_by_funding` and `put_btc_take`. Book.Lines has the tables of version 2
-- offers and loans with `put_v2`, `put_offer_v2` and `open_v2_loan`, on the records of Watcher2;
-- an offer's id and a loan's key, which hash JSON, are parameters. Book.Fields, Stored, Ratchet,
-- Reached, Sold and Listed hold proofs.
--
-- Fees (pignus/fees.py): `fee_atoms`, `dust_atoms` and `pick_fee`, over the rates that
-- `fee_table` reads off the node.
--
-- Watcher2 (pignus/watcher2.py): the version 2 watcher. Watcher2 has `Chain.where`,
-- `place_of_coin`, `spender` and `_place` over a record Node of the node's answers, which are
-- taken not to change within a poll; Watcher2.Loan has `reconcile_loan` on a line of steps with
-- the newest first, Watcher2.Take `borrower_from_take`, Watcher2.Offer `reconcile_offer` and
-- Watcher2.Poll `poll`, which works on the tables of Book.Lines and gives the book back with what
-- it raised; the events it returns and the times it writes in the records are left out. An
-- exception within a record (an output without an explicit asset, a witness that is not hex) is
-- an error value. Found, Kept, Run, Sound, Owed, Sight, Ends, Unchanged, Named, Claimed, Claims
-- and Opened hold proofs on one record, Followed, Polled, Passed, Carried and Current on the book
-- through a poll; a line of Kept is one of Vault2.Spend.Line.
--
-- BtcScript (pignus/btcscript.py): BtcScript has `ser_script`, `script_num` and the three leaves,
-- BtcScript.Tree `TapTree` with the tagged hashes, BtcScript.Tx the transactions and
-- `taproot_sighash`; SHA-256 and the curve's sum are a record Curve. Bitcoin's own rules for
-- these scripts (BIP65, BIP340, BIP341, BIP342) are written out independently of the code: in
-- BtcScript.Rules how a script is read and run and when a number is negative, in
-- BtcScript.Bitcoin the digests of a leaf, a branch, the tweak and a signature, in Control when a
-- control block opens an output, and in Valid when a transaction of one input is valid, which
-- pays no more than it spends. Parsed, Numbers, Leaves, Opens, Committed, Pieces and Control hold
-- proofs.
--
-- BtcLoan (pignus/btc_collateral.py): the loan against bitcoin. BtcLoan has the record and
-- `prevault_value`, BtcLoan.Timelocks `timelocks_sane`, BtcLoan.Spends the two trees and the
-- spends (`complete_reclaim`, `complete_upgrade`, `abort_tx`, `seize_tx`, `timeout_tx`), where
-- `sign` and `verify` of pignus/adaptor.py are a record Signer, and BtcLoan.Seize
-- `seize_sighash`, `check_seize_request` and `seize_is_justified`, with `offer_payload`,
-- `offer_id`, `verify_offer`, `take_payload` and `verify_take` of pignus/btc_relay.py, whose
-- canonical JSON and tagged hash are a record Digests; the numbers of a request are numbers.
-- Safe, Opened, Signed, Started, Swept, Seized, Requested and Judged hold proofs.
--
-- Numbers are natural numbers, for Python's unbounded ints at values that are not negative; where
-- the source subtracts, the model compares first or says why truncation agrees. Asset ids are
-- only compared, so numbers stand for them; scripts and hex texts are lists of numbers. A
-- ValueError is a constructor of an error type, without its message. Every loop is a recursion on
-- a list or on a count, such as the sixteen outputs that a scan looks at or the sixty-four steps
-- of a poll. Only the digits of a number (`script_num`, and hex in Watcher2.Take) run on fuel,
-- the number itself, which has more than its digits, and the reading of a script on one more than
-- its bytes.
--
-- Not modelled: the version 1 offers and loans and the pruning of the book, the version 1 watcher
-- and the beacon, which keep files and follow a node; the Sequentia legs of the Bitcoin-
-- collateral protocol, which rest on the covenant builder, and what asks its nodes; the composer
-- of a liquidation by several oracles; curve arithmetic; floats (`ltv`, `health`), JSON and
-- display, signing by a wallet, witness bytes and the covenant builder, which is another
-- repository's; the vendored packages pignus/sequentia_contracts and pignus/sequentia_oracle; the
-- services and command lines under bin/; the browser's code under web/.
pub mod Prelude
pub mod Terms
pub mod Oracle
pub mod Tx
pub mod Vault
pub mod Vault2
pub mod Fees
pub mod Repurchase
pub mod Book
pub mod Watcher2
pub mod BtcScript
pub mod BtcLoan
