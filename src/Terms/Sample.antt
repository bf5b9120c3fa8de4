-- ===== src/Terms/Sample.antt =====
-- A loan on which the theorems are tried: 1000 atoms of collateral against a debt of 500.
use pignus.Prelude.{[], ◌∷◌, codes}
use pignus.Terms.{LoanTerms}

abbrev pub loan : LoanTerms
loan = record {
  collateral_asset = 1;
  debt_asset = 2;
  collateral_amount = 1000;
  principal = 480;
  debt = 500;
  borrower_x = codes "bb";
  lender_x = codes "aa";
  market = codes "G";
  oracle_x = codes "0a";
  strike = 950;
  not_before = 100;
  maturity = 1000;
  recover_after = 2000;
  bonus_num = 105;
  bonus_den = 100;
  price_scale = 1000;
  max_price = 0;
  memo = [];
  oracles = [];
  oracle_threshold = 0;
  lender_ver = 0;
  borrower_ver = 0;
  lender_prog = codes "0000000000000000000000000000000000000000";
  borrower_prog = codes "1111111111111111111111111111111111111111";
}

-- The same loan under two of three oracles.
abbrev pub shared_loan : LoanTerms
shared_loan = record loan {
  oracle_x = [];
  oracles = codes "0a" ∷ codes "0b" ∷ codes "0c" ∷ [];
  oracle_threshold = 2;
}
