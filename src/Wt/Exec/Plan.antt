-- ===== src/Wt/Exec/Plan.antt =====
-- What the loop of __wt_run_task does with a list of words, without tasks, pages and registers: the
-- words that it feeds, the results that it counts and how it ends.
use dicedev_linux_driver.Base.{
  ℕ, ◌+◌, Bool, true, false, not, List, [], ◌∷◌, ◌++◌, ◌==◌, ltb, if◌then◌else◌, bit_and, bit_or,
}
use dicedev_linux_driver.Dice.{u32, u64, sub64, ◌<<◌}
use dicedev_linux_driver.Wt.Exec.{
  CmdType, cmd_type, get_die_slot_mask, get_die_num_mask, new_set_slot_mask, not32,
}

pub data Verdict : Type 0 where
  done ctx_fail overrun : Verdict

pub record Plan : Type 0 where
  pub words : List ℕ
  pub count : ℕ
  pub verdict : Verdict

abbrev pub stop : Verdict → ℕ → Plan
stop v count = record { words = []; count = count; verdict = v }

abbrev pub feeding : List ℕ → Plan → Plan
feeding cs p = record p { words = cs ++ p.words }

-- The words that reach the device for a pair of words of GET_DIE, and for a word of NEW_SET.
abbrev pub die_words : ℕ → ℕ → ℕ → List ℕ
die_words slot c0 c1 = u32 (bit_or c0 (slot << 24)) ∷ c1 ∷ []

abbrev pub set_words : ℕ → ℕ → List ℕ
set_words slot c0 = u32 (bit_or c0 (slot << 4)) ∷ []

abbrev pub die_refused : ℕ → ℕ → ℕ → Bool
die_refused allowed c0 c1 =
    if not (bit_and c0 get_die_slot_mask == 0) then true else not (bit_and c1 (not32 allowed) == 0)

abbrev pub set_refused : ℕ → Bool
set_refused c0 = not (bit_and c0 new_set_slot_mask == 0)

module _ (slot allowed : ℕ) where
  unfoldable pub plan : List ℕ → ℕ → ℕ → Plan
  plan [] left count = stop (if left == 0 then Verdict.done else Verdict.overrun) count
  plan (c0 ∷ []) left count = elim (left == 0) [
    | true ↦ stop Verdict.done count
    | false ↦ elim (cmd_type c0) [
      | CmdType.nop ↦ plan [] (sub64 left 4) count
      | CmdType.get_die ↦ stop (if ltb left 4 then Verdict.ctx_fail else Verdict.overrun) count
      | CmdType.new_set ↦ elim (set_refused c0) [
        | true ↦ stop Verdict.ctx_fail count
        | false ↦ feeding (set_words slot c0) (plan [] (sub64 left 4) count)
      ]
      | CmdType.other ↦ stop Verdict.ctx_fail count
    ]
  ]
  plan (c0 ∷ c1 ∷ cs) left count = elim (left == 0) [
    | true ↦ stop Verdict.done count
    | false ↦ elim (cmd_type c0) [
      | CmdType.nop ↦ plan (c1 ∷ cs) (sub64 left 4) count
      | CmdType.get_die ↦ elim (ltb left 4) [
        | true ↦ stop Verdict.ctx_fail count
        | false ↦ elim (die_refused allowed c0 c1) [
          | true ↦ stop Verdict.ctx_fail count
          | false ↦
              feeding (die_words slot c0 c1)
                (plan cs (sub64 left 8) (u64 (count + bit_and c0 get_die_num_mask)))
        ]
      ]
      | CmdType.new_set ↦ elim (set_refused c0) [
        | true ↦ stop Verdict.ctx_fail count
        | false ↦ feeding (set_words slot c0) (plan (c1 ∷ cs) (sub64 left 4) count)
      ]
      | CmdType.other ↦ stop Verdict.ctx_fail count
    ]
  ]
