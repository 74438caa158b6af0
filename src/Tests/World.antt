-- ===== src/Tests/World.antt =====
-- A host whose digests are small numbers and whose only bytecode is that of the transfer program.
use logos_execution_zone.Prelude.{
  ℕ, ◌≡◌, sym, ◌+◌, ◌*◌, ◌%◌, Bool, true, ◌&&◌, Option, none, some, List, [], ◌∷◌, all, leb,
  if◌then◌else◌, u128_max, Guest, ok, err, panic, arith,
}
use logos_execution_zone.Core.Account.{ProgramId, AccountWithMetadata}
use logos_execution_zone.Core.Program.{ProgramOutput, InstructionData}
use logos_execution_zone.Core.Validate.{pre_balances, post_balances}
use logos_execution_zone.Core.Validate.Rules.{AreBalances}
use logos_execution_zone.Host.{Host}
use logos_execution_zone.Diff.Public.Sound.{ReturnsWords}
use logos_execution_zone.Programs.AuthTransfer.{Instruction, initialize, transfer_amount, main}

unfoldable pub digest : List ℕ → ℕ
digest [] = 7
digest (byte ∷ bytes) = (byte + 31 * digest bytes) % 1000003

abbrev instruction_of : InstructionData → Instruction
instruction_of [] = initialize
instruction_of (amount ∷ words) = transfer_amount amount

abbrev output_of : Guest ProgramOutput → Option ProgramOutput
output_of (ok output) = some output
output_of (err e) = none
output_of (panic m) = none

abbrev fits : ProgramOutput → Bool
fits output =
    all (λ b. leb b u128_max) (pre_balances output.pre_states)
    && all (λ b. leb b u128_max) (post_balances output.post_states)

abbrev decoded : Option ProgramOutput → Option ProgramOutput
decoded none = none
decoded (some output) = if fits output then some output else none

unfoldable pub run_session :
    List ℕ
    → ProgramId
    → Option ProgramId
    → List AccountWithMetadata
    → InstructionData
    → Option ProgramOutput
run_session elf id caller pres words = decoded (
    output_of (
      main
        (record {
          self_program_id = id;
          caller_program_id = caller;
          pre_states = pres;
          instruction = instruction_of words;
        })
        words))

abbrev image_id : List ℕ → Option ProgramId
image_id [] = none
image_id (id ∷ bytes) = some id

abbrev pub host : Host
host = record {
  sha256 = digest;
  verify_raw = λ key message signature. true;
  public_message_to_bytes = λ message. message.instruction_data;
  private_message_to_bytes = λ message. [];
  run_session = run_session;
  image_id = image_id;
  verify_receipt = λ proof output. some true;
  clock_id = 90;
  faucet_id = 91;
}

all-AreBalances : (bs : List ℕ) → all (λ b. leb b u128_max) bs ≡ true → AreBalances bs
all-AreBalances [] h = tt
all-AreBalances (b ∷ bs) h = (ground arith, all-AreBalances bs (ground arith))

decoded-AreBalances :
    (o : Option ProgramOutput) (output : ProgramOutput)
    → decoded o ≡ some output
    → AreBalances (pre_balances output.pre_states) × AreBalances (post_balances output.post_states)
decoded-AreBalances none output h = cc
decoded-AreBalances (some o) output h =
    let e : o ≡ output = ground arith in
    let small : fits o ≡ true = ground arith in
    rw (sym e) (
      all-AreBalances (pre_balances o.pre_states) (ground (arith, small)),
      all-AreBalances (post_balances o.post_states) (ground (arith, small)),
    )

pub host-ReturnsWords : ReturnsWords host
unfolding run_session
host-ReturnsWords = record {
  outputs = λ elf id caller pres words output h.
      decoded-AreBalances
        (output_of (
          main
            (record {
              self_program_id = id;
              caller_program_id = caller;
              pre_states = pres;
              instruction = instruction_of words;
            })
            words))
        output h;
}
