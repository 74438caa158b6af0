-- ===== src/Programs/Clock/Ticks.antt =====
-- Each tick of the clock is one block.
use logos_execution_zone.Prelude.{
  ℕ, ◌+◌, ◌%◌, ◌≤◌, ◌≡◌, refl, not, some, List, [], ◌∷◌, Guest, ok, assert, expect, expect-eq-ok,
  >>=-eq-ok, ◌==◌, arith, u64_max, if◌then◌else◌,
}
use logos_execution_zone.Core.Account.{ProgramId, Account, AccountWithMetadata}
use logos_execution_zone.Core.Program.{AccountPostState, post_state}
use logos_execution_zone.Token.Core.{data_from_bytes}
use logos_execution_zone.Programs.Clock.{
  ClockAccountData, ClockCodec, IsClockCodec, next_block_id, update_if_multiple, has_other_account,
  has_other_owner, tick,
}

-- The account after block `block_id`: refreshed if the divisor divides it, otherwise as it was.
abbrev pub refreshed : ClockCodec → AccountWithMetadata → ℕ → ClockAccountData → Account
refreshed codec pre divisor clock =
    if (clock.block_id % divisor) == 0
    then record pre.account { account_data = codec.to_bytes clock }
    else pre.account

update_if_multiple-refreshed :
    (codec : ClockCodec) (pre : AccountWithMetadata) (divisor : ℕ) (clock : ClockAccountData)
    {post : AccountPostState}
    → update_if_multiple pre divisor clock.block_id (codec.to_bytes clock) ≡ ok post
    → post ≡ post_state (refreshed codec pre divisor clock)
unfolding update_if_multiple data_from_bytes
update_if_multiple-refreshed codec pre divisor clock h = ground arith

collected :
    {p q r p' q' r' : AccountPostState} {posts : List AccountPostState}
    → ◌≡◌ {A = Guest (List AccountPostState)} (ok (p ∷ q ∷ r ∷ [])) (ok posts)
    → p ≡ p'
    → q ≡ q'
    → r ≡ r'
    → posts ≡ p' ∷ q' ∷ r' ∷ []
collected h e f g = cc

module _ (codec : ClockCodec) (laws : IsClockCodec codec) where
  -- With encodings that decode to what was encoded and a `u64` time, a tick that returns is the
  -- next block: with the block `b` in the first account, the first account decodes to block `b +
  -- 1` and the given time, and the other two are refreshed with the same data if 10 and 50 divide
  -- `b + 1`, and are otherwise unchanged. Nothing but the data changes.
  pub tick-next_block :
      (self_program_id : ProgramId) (pre_01 pre_10 pre_50 : AccountWithMetadata) (timestamp : ℕ)
      {posts : List AccountPostState}
      → timestamp ≤ u64_max
      → tick codec self_program_id pre_01 pre_10 pre_50 timestamp ≡ ok posts
      → (previous next : ClockAccountData) × (codec.from_bytes pre_01.account.account_data
          ≡ some previous)
        × (next ≡ record { block_id = previous.block_id + 1; timestamp = timestamp })
        × (codec.from_bytes (refreshed codec pre_01 1 next).account_data ≡ some next)
        × (posts
            ≡ post_state (refreshed codec pre_01 1 next)
              ∷ post_state (refreshed codec pre_10 10 next)
              ∷ post_state (refreshed codec pre_50 50 next)
              ∷ [])
  unfolding tick
  tick-next_block self_program_id pre_01 pre_10 pre_50 timestamp word h =
      let (_, named, h1) =
        >>=-eq-ok (assert (not (has_other_account pre_01 pre_10 pre_50)) "Invalid input accounts") _
          h in
      let (_, owned, h2) =
        >>=-eq-ok
          (assert (not (has_other_owner self_program_id pre_01 pre_10 pre_50))
            "Clock accounts must be owned by the clock program")
          _ h1 in
      let (previous, ep, h3) =
        >>=-eq-ok
          (expect (codec.from_bytes pre_01.account.account_data)
            "ClockAccountData deserialization should not fail")
          _ h2 in
      let (n, en, h4) =
        >>=-eq-ok
          (expect (next_block_id previous.block_id) "Next block id should be within u64 boundaries")
          _ h3 in
      let next : ClockAccountData = record { block_id = n; timestamp = timestamp } in
      let (post_01, e1, h5) =
        >>=-eq-ok (update_if_multiple pre_01 1 n (codec.to_bytes next)) _ h4 in
      let (post_10, e10, h6) =
        >>=-eq-ok (update_if_multiple pre_10 10 n (codec.to_bytes next)) _ h5 in
      let (post_50, e50, h7) =
        >>=-eq-ok (update_if_multiple pre_50 50 n (codec.to_bytes next)) _ h6 in
      let stepped : n ≡ previous.block_id + 1 = ground (arith, en) in
      let small : n ≤ u64_max = ground (arith, en) in
      (
        previous,
        next,
        expect-eq-ok _ "ClockAccountData deserialization should not fail" ep,
        rw stepped refl,
        ground (arith, laws next small word),
        collected h7 (update_if_multiple-refreshed codec pre_01 1 next e1)
            (update_if_multiple-refreshed codec pre_10 10 next e10)
            (update_if_multiple-refreshed codec pre_50 50 next e50),
      )
