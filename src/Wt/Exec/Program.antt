-- ===== src/Wt/Exec/Program.antt =====
-- Well-formed programs of a user, built with the macros of dicedev.h, through __wt_run_task.
use dicedev_linux_driver.Base.{
  ℕ, suc, ◌+◌, ◌*◌, ◌/◌, ◌^◌, ◌<◌, ◌≡◌, refl, ◌∙◌, ap, false, List, [], ◌∷◌, ◌++◌, arith, bit_and,
  bit_or, ◌==◌, ltb, length, ==_ne,
}
use dicedev_linux_driver.Base.Bits.{bit_or_below}
use dicedev_linux_driver.Dice.{u64, sub64, ◌<<◌, cmd_type_nop, cmd_type_get_die, cmd_type_new_set}
use dicedev_linux_driver.Wt.Exec.{CmdType, cmd_type, not32, get_die_num_mask}
use dicedev_linux_driver.Wt.Exec.Plan.{Verdict, feeding, plan, die_words, set_words, die_refused}
use dicedev_linux_driver.Wt.Exec.Masks.{type_field, get_die_slot_field, get_die_num_field}

-- DICEDEV_USER_CMD_GET_DIE_HEADER(NUM, OUTPUT_TYPE)
unfoldable pub get_die_header : ℕ → ℕ → ℕ
get_die_header num output_type = bit_or (bit_or cmd_type_get_die (num << 4)) (output_type << 20)

-- What a user may ask for: `num` rolls of the dice in the set `dice`.
pub data Command : Type 0 where
  nop : Command
  get_die : (num output_type dice : ℕ) → Command
  new_set : Command

abbrev pub encode : List Command → List ℕ
encode [] = []
encode (Command.nop ∷ cs) = cmd_type_nop ∷ encode cs
encode (Command.get_die n o d ∷ cs) = get_die_header n o ∷ d ∷ encode cs
encode (Command.new_set ∷ cs) = cmd_type_new_set ∷ encode cs

-- The numbers fit their fields and the dice are allowed.
abbrev pub Fits : ℕ → List Command → Type 0
Fits allowed [] = Unit {0}
Fits allowed (Command.nop ∷ cs) = Fits allowed cs
Fits allowed (Command.get_die n o d ∷ cs) =
    (n < 2 ^ 16) × (o < 16) × (bit_and d (not32 allowed) ≡ 0) × Fits allowed cs
Fits allowed (Command.new_set ∷ cs) = Fits allowed cs

abbrev pub translate : ℕ → List Command → List ℕ
translate slot [] = []
translate slot (Command.nop ∷ cs) = translate slot cs
translate slot (Command.get_die n o d ∷ cs) =
    die_words slot (get_die_header n o) d ++ translate slot cs
translate slot (Command.new_set ∷ cs) = set_words slot cmd_type_new_set ++ translate slot cs

-- The results that the driver counts: 16 for each roll, without the lowest bit of the number.
abbrev pub counted : ℕ → List Command → ℕ
counted count [] = count
counted count (Command.nop ∷ cs) = counted count cs
counted count (Command.get_die n o d ∷ cs) = counted (u64 (count + n / 2 * 32)) cs
counted count (Command.new_set ∷ cs) = counted count cs

module _ (n o : ℕ) (pn : n < 2 ^ 16) (po : o < 16) where
  header_value : get_die_header n o ≡ o * 2 ^ 20 + (n * 2 ^ 4 + 2)
  unfolding get_die_header
  header_value =
      rw (bit_or_below 4 n 2 (omega arith)) (bit_or_below 20 o (n * 2 ^ 4 + 2) (omega arith))

  header_type : cmd_type (get_die_header n o) ≡ CmdType.get_die
  unfolding cmd_type
  header_type =
      let t : bit_and (get_die_header n o) 15 ≡ 2 =
        omega (arith, type_field (get_die_header n o), header_value) in
      rw t

  header_accepted :
      (allowed d : ℕ)
      → bit_and d (not32 allowed) ≡ 0
      → die_refused allowed (get_die_header n o) d ≡ false
  header_accepted allowed d inside =
      ground (arith, get_die_slot_field (get_die_header n o), header_value)

  header_count : bit_and (get_die_header n o) get_die_num_mask ≡ n / 2 * 32
  header_count = omega (arith, get_die_num_field (get_die_header n o), header_value)

module _ (slot allowed : ℕ) where
  -- One command in front of the words `ws`.
  plan-nop :
      (ws : List ℕ) (left count : ℕ)
      → (left == 0) ≡ false
      → plan slot allowed (cmd_type_nop ∷ ws) left count ≡ plan slot allowed ws (sub64 left 4) count
  unfolding plan cmd_type
  plan-nop [] left count more = rw (more, plan)
  plan-nop (c ∷ cs) left count more = rw (more, plan)

  plan-new_set :
      (ws : List ℕ) (left count : ℕ)
      → (left == 0) ≡ false
      → plan slot allowed (cmd_type_new_set ∷ ws) left count
        ≡ feeding (set_words slot cmd_type_new_set) (plan slot allowed ws (sub64 left 4) count)
  unfolding plan cmd_type
  plan-new_set [] left count more = rw (more, plan)
  plan-new_set (c ∷ cs) left count more = rw (more, plan)

  plan-get_die :
      (n o d : ℕ) (ws : List ℕ) (left count : ℕ)
      → n < 2 ^ 16
      → o < 16
      → bit_and d (not32 allowed) ≡ 0
      → (left == 0) ≡ false
      → ltb left 4 ≡ false
      → plan slot allowed (get_die_header n o ∷ d ∷ ws) left count
        ≡ feeding
            (die_words slot (get_die_header n o) d)
            (plan slot allowed ws (sub64 left 8) (u64 (count + n / 2 * 32)))
  unfolding plan
  plan-get_die n o d ws left count pn po inside more long = rw (
    more,
    plan,
    header_type n o pn po,
    long,
    header_accepted n o pn po allowed d inside,
    header_count n o pn po,
  )

  -- A program that fits is run to its end: every command is fed, in order, with the slot filled in.
  pub plan-encode :
      (prog : List Command) (count : ℕ)
      → Fits allowed prog
      → 4 * length (encode prog) < 2 ^ 64
      → plan slot allowed (encode prog) (4 * length (encode prog)) count
        ≡ record { words = translate slot prog; count = counted count prog; verdict = Verdict.done }
  unfolding plan
  plan-encode [] count fits small = refl
  plan-encode (Command.nop ∷ cs) count fits small =
      let left : sub64 (4 * suc (length (encode cs))) 4 ≡ 4 * length (encode cs) = omega arith in
      plan-nop (encode cs) _ count (==_ne _ _ (omega arith))
      ∙ rw left (plan-encode cs count fits (omega arith))
  plan-encode (Command.get_die n o d ∷ cs) count (pn, po, inside, fits) small =
      let left : sub64 (4 * suc (suc (length (encode cs)))) 8 ≡ 4 * length (encode cs) =
        omega arith in
      plan-get_die n o d (encode cs) _ count pn po inside (==_ne _ _ (omega arith)) (ground arith)
      ∙ rw left (
          ap (feeding (die_words slot (get_die_header n o) d))
            (plan-encode cs (u64 (count + n / 2 * 32)) fits (omega arith)))
  plan-encode (Command.new_set ∷ cs) count fits small =
      let left : sub64 (4 * suc (length (encode cs))) 4 ≡ 4 * length (encode cs) = omega arith in
      plan-new_set (encode cs) _ count (==_ne _ _ (omega arith))
      ∙ rw left
          (ap (feeding (set_words slot cmd_type_new_set)) (plan-encode cs count fits (omega arith)))
