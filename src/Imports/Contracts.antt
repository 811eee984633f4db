-- ===== src/Imports/Contracts.antt =====
-- The table `opt` of code/backend/btdata.py, keyed by a contract on a trading day. A price is of any
-- type `N`, and a strike in thousandths of any type `K` with equality.
use grindstone.Prelude.{
  true, ◌∙◌, ℕ, ◌≡◌, ap, ◌↔◌, Bool, ◌&&◌, ◌||◌, Option, List, [], ◌∷◌, any, arith, Eq, nat_eq, ◌==◌,
  if◌then◌else◌, Bool-cases, inl, inr,
}

-- PRIMARY KEY (d, exp, cp, strike)
pub record ContractKey (K : Type 0) : Type 0 where
  pub d : ℕ
  pub exp : ℕ
  pub cp : ℕ
  pub strike : K

module _ {K : Type 0} ⦃e : Eq K⦄ where
  abbrev pub key_beq : ContractKey K → ContractKey K → Bool
  key_beq a b = a.d == b.d && (a.exp == b.exp && (a.cp == b.cp && a.strike == b.strike))

  pub key_beq_iff : (a b : ContractKey K) → (key_beq a b ≡ true) ↔ (a ≡ b)
  key_beq_iff a b = ground (
    arith,
    nat_eq.same_iff a.d b.d,
    nat_eq.same_iff a.exp b.exp,
    nat_eq.same_iff a.cp b.cp,
    e.same_iff a.strike b.strike,
  )

  instance abbrev pub key_eq : Eq (ContractKey K)
  key_eq = record { same_iff = key_beq_iff; same = key_beq }

pub record OptRow (N K : Type 0) : Type 0 where
  pub key : ContractKey K
  pub bid : Option N
  pub ask : Option N
  pub mark : Option N
  pub vol : Option N
  pub oi : Option N
  pub delta : Option N
  pub iv : Option N
  pub src_id : ℕ

module _ {N K : Type 0} ⦃e : Eq K⦄ where
  abbrev pub is_row_of : ContractKey K → OptRow N K → Bool
  is_row_of k r = r.key == k

  abbrev pub has_contract : ContractKey K → List (OptRow N K) → Bool
  has_contract k opt = any (is_row_of k) opt

  -- `INSERT OR REPLACE INTO opt`
  abbrev pub replace_row : OptRow N K → List (OptRow N K) → List (OptRow N K)
  replace_row new [] = new ∷ []
  replace_row new (r ∷ rs) = if is_row_of new.key r then new ∷ rs else r ∷ replace_row new rs

  -- `executemany`
  abbrev pub replace_rows : List (OptRow N K) → List (OptRow N K) → List (OptRow N K)
  replace_rows [] opt = opt
  replace_rows (new ∷ news) opt = replace_rows news (replace_row new opt)

  has_contract-replace_row :
      (k : ContractKey K) (new : OptRow N K) (opt : List (OptRow N K))
      → has_contract k (replace_row new opt) ≡ (has_contract k opt || is_row_of k new)
  has_contract-replace_row k new [] = ground arith
  has_contract-replace_row k new (r ∷ rs) = elim (Bool-cases (is_row_of new.key r)) [
    | inl is ↦ rw is (ground (arith, ap (λ q. q == k) ((key_eq.same_iff r.key new.key).0 is)))
    | inr apart ↦ rw apart (ground (arith, has_contract-replace_row k new rs))
  ]

  pub has_contract-replace_rows :
      (k : ContractKey K) (news opt : List (OptRow N K))
      → has_contract k (replace_rows news opt) ≡ (has_contract k opt || has_contract k news)
  has_contract-replace_rows k [] opt = ground arith
  has_contract-replace_rows k (new ∷ news) opt =
      has_contract-replace_rows k news (replace_row new opt)
      ∙ ground (arith, has_contract-replace_row k new opt)
