-- ===== src/Token/Supply/Change.antt =====
-- What a definition and a holding of it are before and after units are issued or destroyed.
use logos_execution_zone.Prelude.{
  ℕ, ◌≡◌, refl, subst, ◌⊎◌, inl, inr, some, ok, Bool-cases, arith, ◌+◌, ◌≤◌, ◌-◌, u128_max, true,
  false,
}
use logos_execution_zone.Core.Account.{
  AccountId, Account, default_account, account_eq, account_eq_sound,
}
use logos_execution_zone.Token.Core.{
  Codec, IsCodec, TokenDefinition, TokenHolding, nft_master, nft_printed_copy,
  zeroized_from_definition, HoldingInRange, DefinitionInRange, supply_of, amount_of,
}
use logos_execution_zone.Token.Supply.{
  holding_or_fresh, mint_units, mint_units_with_authority, burn_units,
}

-- An empty holding of a definition: no units of a fungible token, or a copy that is not owned.
abbrev pub IsEmptyOf : AccountId → TokenDefinition → TokenHolding → Type 0
IsEmptyOf id (TokenDefinition.fungible n s m a) (TokenHolding.fungible d b) = (d ≡ id) × (b ≡ 0)
IsEmptyOf id (TokenDefinition.non_fungible n s m) (nft_printed_copy d owned) =
    (d ≡ id) × (owned ≡ false)
IsEmptyOf id _ _ = ⊥

-- `left` is `held` with another number of units: it has the same kind and the same token.
abbrev pub IsSameHolding : TokenHolding → TokenHolding → Type 0
IsSameHolding (TokenHolding.fungible d b) (TokenHolding.fungible d' b') = d' ≡ d
IsSameHolding (nft_master d b) (nft_master d' b') = d' ≡ d
IsSameHolding (nft_printed_copy d owned) (nft_printed_copy d' owned') = d' ≡ d
IsSameHolding _ _ = ⊥

-- The holding that an account counts as: with default values, an empty one of the definition.
abbrev pub HoldsFor : Codec → AccountId → TokenDefinition → Account → TokenHolding → Type 0
HoldsFor codec definition_id definition account holding =
    ((account ≡ default_account) × IsEmptyOf definition_id definition holding)
    ⊎ (codec.decode_holding account.account_data ≡ some holding)

-- `after` is `before` with another supply.
abbrev pub IsSameToken : TokenDefinition → TokenDefinition → Type 0
IsSameToken (TokenDefinition.fungible n s m a) (TokenDefinition.fungible n' s' m' a') =
    (n' ≡ n) × (m' ≡ m) × (a' ≡ a)
IsSameToken (TokenDefinition.non_fungible n s m) (TokenDefinition.non_fungible n' s' m') =
    (n' ≡ n) × (m' ≡ m)
IsSameToken (TokenDefinition.fungible n s m a) (TokenDefinition.non_fungible n' s' m') = ⊥
IsSameToken (TokenDefinition.non_fungible n s m) (TokenDefinition.fungible n' s' m' a') = ⊥

pub record IsUnitChange (before : TokenDefinition) (held : TokenHolding) (after : TokenDefinition)
    (left : TokenHolding) : Type 0 where
  pub conserved : supply_of after + amount_of held ≡ supply_of before + amount_of left
  pub same_definition : IsSameToken before after
  pub same_holding : IsSameHolding held left
  pub supply_range : DefinitionInRange before → DefinitionInRange after
  pub holding_range : HoldingInRange held → HoldingInRange left

-- Minting issues `amount` units: the supply and the holding both grow by it.
pub mint_units-change :
    (definition : TokenDefinition) (holding : TokenHolding) (amount : ℕ) (after : TokenDefinition)
    (left : TokenHolding)
    → mint_units definition holding amount ≡ ok (after, left)
    → IsUnitChange definition holding after left × (supply_of after ≡ supply_of definition + amount)
unfolding mint_units
mint_units-change (TokenDefinition.fungible n s m a) (TokenHolding.fungible d b) amount after left
      h =
    let room : s + amount ≤ u128_max = ground arith in
    let fits : b + amount ≤ u128_max = ground arith in
    let e : after ≡ TokenDefinition.fungible n (s + amount) m a = ground arith in
    let f : left ≡ TokenHolding.fungible d (b + amount) = ground arith in
    rw (e, f)
      (
        record {
          conserved = omega arith;
          same_definition = (refl, refl, refl);
          same_holding = refl;
          supply_range = λ p. room;
          holding_range = λ p. fits;
        },
        refl,
      )
mint_units-change (TokenDefinition.non_fungible n s m) (nft_master d b) amount after left h = cc
mint_units-change (TokenDefinition.non_fungible n s m) (nft_printed_copy d b) amount after left h =
    cc
mint_units-change (TokenDefinition.non_fungible n s m) (TokenHolding.fungible d b) amount after left
      h =
    cc
mint_units-change (TokenDefinition.fungible n s m a) (nft_master d b) amount after left h = cc
mint_units-change (TokenDefinition.fungible n s m a) (nft_printed_copy d b) amount after left h = cc

-- What the administrator mints is what the signer of the definition would mint.
pub mint_units_with_authority-mint_units :
    (definition : TokenDefinition) (holding : TokenHolding) (amount : ℕ)
    {pair : TokenDefinition × TokenHolding}
    → mint_units_with_authority definition holding amount ≡ ok pair
    → mint_units definition holding amount ≡ ok pair
unfolding mint_units mint_units_with_authority
mint_units_with_authority-mint_units (TokenDefinition.fungible n s m a) (TokenHolding.fungible d b)
      amount h =
    h
mint_units_with_authority-mint_units (TokenDefinition.fungible n s m a) (nft_master d b) amount h =
    cc
mint_units_with_authority-mint_units (TokenDefinition.fungible n s m a) (nft_printed_copy d b)
      amount h =
    cc
mint_units_with_authority-mint_units (TokenDefinition.non_fungible n s m) holding amount h = cc

-- Burning destroys `amount` units.
pub burn_units-change :
    (definition : TokenDefinition) (holding : TokenHolding) (amount : ℕ) (after : TokenDefinition)
    (left : TokenHolding)
    → burn_units definition holding amount ≡ ok (after, left)
    → IsUnitChange definition holding after left × (supply_of after + amount ≡ supply_of definition)
unfolding burn_units
burn_units-change (TokenDefinition.fungible n s m a) (TokenHolding.fungible d b) amount after left
      h =
    let covered : amount ≤ s = ground arith in
    let held : amount ≤ b = ground arith in
    let e : after ≡ TokenDefinition.fungible n (s - amount) m a = ground arith in
    let f : left ≡ TokenHolding.fungible d (b - amount) = ground arith in
    rw (e, f)
      (
        record {
          conserved = omega arith;
          same_definition = (refl, refl, refl);
          same_holding = refl;
          supply_range = λ p. omega arith;
          holding_range = λ p. omega arith;
        },
        omega arith,
      )
burn_units-change (TokenDefinition.non_fungible n s m) (nft_master d b) amount after left h =
    let covered : amount ≤ s = ground arith in
    let held : amount ≤ b = ground arith in
    let e : after ≡ TokenDefinition.non_fungible n (s - amount) m = ground arith in
    let f : left ≡ nft_master d (b - amount) = ground arith in
    rw (e, f)
      (
        record {
          conserved = omega arith;
          same_definition = (refl, refl);
          same_holding = refl;
          supply_range = λ p. omega arith;
          holding_range = λ p. omega arith;
        },
        omega arith,
      )
burn_units-change (TokenDefinition.non_fungible n s m) (nft_printed_copy d true) amount after left
      h =
    let one : amount ≡ 1 = ground arith in
    let covered : 1 ≤ s = ground arith in
    let e : after ≡ TokenDefinition.non_fungible n (s - 1) m = ground arith in
    let f : left ≡ nft_printed_copy d false = ground arith in
    rw (e, f)
      (
        record {
          conserved = omega arith;
          same_definition = (refl, refl);
          same_holding = refl;
          supply_range = λ p. omega arith;
          holding_range = λ p. tt;
        },
        omega arith,
      )
burn_units-change (TokenDefinition.non_fungible n s m) (nft_printed_copy d false) amount after left
      h =
    absurd (ground arith)
burn_units-change (TokenDefinition.non_fungible n s m) (TokenHolding.fungible d b) amount after left
      h =
    cc
burn_units-change (TokenDefinition.fungible n s m a) (nft_master d b) amount after left h = cc
burn_units-change (TokenDefinition.fungible n s m a) (nft_printed_copy d b) amount after left h = cc

zeroized_from_definition-IsEmptyOf :
    (id : AccountId) (definition : TokenDefinition)
    → IsEmptyOf id definition (zeroized_from_definition id definition)
zeroized_from_definition-IsEmptyOf id (TokenDefinition.fungible n s m a) = (refl, refl)
zeroized_from_definition-IsEmptyOf id (TokenDefinition.non_fungible n s m) = (refl, refl)

IsEmptyOf-range :
    (id : AccountId) (definition : TokenDefinition) (holding : TokenHolding)
    → IsEmptyOf id definition holding
    → HoldingInRange holding
IsEmptyOf-range id (TokenDefinition.fungible n s m a) (TokenHolding.fungible d b) h = omega arith
IsEmptyOf-range id (TokenDefinition.fungible n s m a) (nft_master d b) h = absurd h
IsEmptyOf-range id (TokenDefinition.fungible n s m a) (nft_printed_copy d o) h = absurd h
IsEmptyOf-range id (TokenDefinition.non_fungible n s m) (TokenHolding.fungible d b) h = absurd h
IsEmptyOf-range id (TokenDefinition.non_fungible n s m) (nft_master d b) h = absurd h
IsEmptyOf-range id (TokenDefinition.non_fungible n s m) (nft_printed_copy d o) h = tt

module _ (codec : Codec) (laws : IsCodec codec) where
  pub holding_or_fresh-HoldsFor :
      (id : AccountId) (definition : TokenDefinition) (account : Account) {holding : TokenHolding}
      → holding_or_fresh codec id definition account ≡ ok holding
      → HoldsFor codec id definition account holding
  unfolding holding_or_fresh
  holding_or_fresh-HoldsFor id definition account {holding} h =
      elim (Bool-cases (account_eq account default_account)) [
        | inl e ↦
            let made = rw e at h in
            let fresh : zeroized_from_definition id definition ≡ holding = cc made in
            inl (
              account_eq_sound account default_account e,
              subst (IsEmptyOf id definition) fresh
                  (zeroized_from_definition-IsEmptyOf id definition),
            )
        | inr e ↦ inr (ground (arith, e))
      ]

  pub HoldsFor-range :
      (id : AccountId) (definition : TokenDefinition) (account : Account) (holding : TokenHolding)
      → HoldsFor codec id definition account holding
      → HoldingInRange holding
  HoldsFor-range id definition account holding (inl fresh) =
      IsEmptyOf-range id definition holding (fresh.1)
  HoldsFor-range id definition account holding (inr e) =
      laws.holding_range account.account_data holding e
