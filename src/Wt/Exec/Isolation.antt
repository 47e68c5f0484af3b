-- ===== src/Wt/Exec/Isolation.antt =====
-- Which slot and which dice the commands name that __wt_run_task of dicedev_wt.c lets through.
use dicedev_linux_driver.Base.{
  ℕ, ◌+◌, ◌-◌, ◌*◌, ◌/◌, ◌%◌, ◌^◌, ◌<◌, ◌≡◌, refl, ◌∙◌, ◌⊎◌, inl, inr, true, false, List, [], ◌∷◌,
  arith, bit_and, bit_or, ◌==◌, ltb, Bool-cases,
}
use dicedev_linux_driver.Base.Bits.{bit_or-mod, bit_or-zero}
use dicedev_linux_driver.Dice.{u32, u64, sub64, ◌<<◌}
use dicedev_linux_driver.Wt.Exec.{CmdType, cmd_type, not32, get_die_num_mask}
use dicedev_linux_driver.Wt.Exec.Plan.{
  Plan, Verdict, stop, feeding, plan, set_words, die_refused, set_refused,
}
use dicedev_linux_driver.Wt.Exec.Masks.{type_field}
use dicedev_linux_driver.Wt.Exec.Slot.{slot_field, new_set_slot, get_die_slot}

-- The slot itself or, behind an even one, its neighbour.
abbrev pub Names : ℕ → ℕ → Type 0
Names slot f = (f ≡ slot) ⊎ ((slot % 2 ≡ 0) × (f ≡ slot + 1))

-- The device reads the words as commands.
pub data Fed (slot allowed : ℕ) : List ℕ → Type 0 where
  end : Fed slot allowed []
  die :
      {h c1 : ℕ} {cs : List ℕ}
      → h % 16 ≡ 2
      → Names slot (slot_field 24 h)
      → bit_and c1 (not32 allowed) ≡ 0
      → Fed slot allowed cs
      → Fed slot allowed (h ∷ c1 ∷ cs)
  set :
      {h : ℕ} {cs : List ℕ}
      → h % 16 ≡ 4
      → Names slot (slot_field 4 h)
      → Fed slot allowed cs
      → Fed slot allowed (h ∷ cs)

named : (slot u f : ℕ) → u < 2 → f ≡ slot + u * (1 - slot % 2) → Names slot f
named slot u f h e = elim (Bool-cases (u * (1 - slot % 2) == 0)) [
  | inl z ↦ inl (ground arith)
  | inr nz ↦ inr (grind arith)
]

-- The type stays when a field above it is filled in.
kept_type : (c x : ℕ) → x % 16 ≡ 0 → u32 (bit_or c x) % 16 ≡ c % 16
kept_type c x e = ground (arith, bit_or-mod 4 c x, bit_or-zero (c % 16))

get_die_type : (c : ℕ) → cmd_type c ≡ CmdType.get_die → c % 16 ≡ 2
unfolding cmd_type
get_die_type c e = ground (arith, type_field c)

new_set_type : (c : ℕ) → cmd_type c ≡ CmdType.new_set → c % 16 ≡ 4
unfolding cmd_type
new_set_type c e = ground (arith, type_field c)

module _ (slot allowed : ℕ) (small : slot < 16) where
  fed_set :
      (c0 : ℕ) {cs : List ℕ}
      → cmd_type c0 ≡ CmdType.new_set
      → set_refused c0 ≡ false
      → Fed slot allowed cs
      → Fed slot allowed (u32 (bit_or c0 (slot << 4)) ∷ cs)
  fed_set c0 e good rest =
      set (kept_type c0 (slot << 4) (omega arith) ∙ new_set_type c0 e)
        (named slot (c0 / 16 % 2) _ (omega arith) (new_set_slot c0 slot small good)) rest

  fed_die :
      (c0 c1 : ℕ) {cs : List ℕ}
      → cmd_type c0 ≡ CmdType.get_die
      → die_refused allowed c0 c1 ≡ false
      → Fed slot allowed cs
      → Fed slot allowed (u32 (bit_or c0 (slot << 24)) ∷ c1 ∷ cs)
  fed_die c0 c1 e good rest =
      die (kept_type c0 (slot << 24) (omega arith) ∙ get_die_type c0 e)
        (named slot (c0 / 2 ^ 24 % 2) _ (omega arith) (get_die_slot c0 slot small allowed c1 good))
        (ground arith) rest

  fed_new_set :
      (c0 : ℕ) (p : Plan) (n : ℕ)
      → cmd_type c0 ≡ CmdType.new_set
      → Fed slot allowed p.words
      → let q : Plan = elim (set_refused c0) [
        | true ↦ stop Verdict.ctx_fail n
        | false ↦ feeding (set_words slot c0) p
      ] in
        Fed slot allowed q.words
  fed_new_set c0 p n e rest = elim (Bool-cases (set_refused c0)) [
    | inl bad ↦ rw bad end
    | inr good ↦ rw good (fed_set c0 e good rest)
  ]

  -- Whatever words a task holds, what is fed is a sequence of GET_DIE and NEW_SET commands, with
  -- dice that the buffer allows, for the slot of the buffer or, if that is even, for the next.
  pub plan-Fed :
      (words : List ℕ) (left count : ℕ)
      → Fed slot allowed (plan slot allowed words left count).words
  unfolding plan
  plan-Fed [] left count = end
  plan-Fed (c0 ∷ []) left count = elim (Bool-cases (left == 0)) [
    | inl z ↦ rw (z, plan) end
    | inr more ↦ go (cmd_type c0) refl more (plan-Fed [] (sub64 left 4) count)
  ]
    where
      go :
          (ty : CmdType)
          → cmd_type c0 ≡ ty
          → (left == 0) ≡ false
          → Fed slot allowed (plan slot allowed [] (sub64 left 4) count).words
          → Fed slot allowed (plan slot allowed (c0 ∷ []) left count).words
      go CmdType.nop e more rest = rw (more, plan, e) rest
      go CmdType.get_die e more rest = rw (more, plan, e) end
      go CmdType.new_set e more rest =
          rw (more, plan, e)
            (fed_new_set c0 (plan slot allowed [] (sub64 left 4) count) count e rest)
      go CmdType.other e more rest = rw (more, plan, e) end
  plan-Fed (c0 ∷ c1 ∷ cs) left count = elim (Bool-cases (left == 0)) [
    | inl z ↦ rw (z, plan) end
    | inr more ↦
        go (cmd_type c0) refl more (plan-Fed (c1 ∷ cs) (sub64 left 4) count)
          (plan-Fed cs (sub64 left 8) (u64 (count + bit_and c0 get_die_num_mask)))
  ]
    where
      go :
          (ty : CmdType)
          → cmd_type c0 ≡ ty
          → (left == 0) ≡ false
          → Fed slot allowed (plan slot allowed (c1 ∷ cs) (sub64 left 4) count).words
          → Fed slot allowed
              (plan slot allowed cs
                (sub64 left 8)
                (u64 (count + bit_and c0 get_die_num_mask))).words
          → Fed slot allowed (plan slot allowed (c0 ∷ c1 ∷ cs) left count).words
      go CmdType.nop e more rest rest' = rw (more, plan, e) rest
      go CmdType.get_die e more rest rest' = elim (Bool-cases (ltb left 4)) [
        | inl short ↦ rw (more, plan, e, short) end
        | inr long ↦ elim (Bool-cases (die_refused allowed c0 c1)) [
          | inl bad ↦ rw (more, plan, e, long, bad) end
          | inr good ↦ rw (more, plan, e, long, good) (fed_die c0 c1 e good rest')
        ]
      ]
      go CmdType.new_set e more rest rest' =
          rw (more, plan, e)
            (fed_new_set c0 (plan slot allowed (c1 ∷ cs) (sub64 left 4) count) count e rest)
      go CmdType.other e more rest rest' = rw (more, plan, e) end
