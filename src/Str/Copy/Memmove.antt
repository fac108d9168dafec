-- ===== src/Str/Copy/Memmove.antt =====
-- memmove chooses its direction by the order of the two addresses.
use asym.Base.{
  ℕ, ◌+◌, ◌-◌, ◌≤◌, ◌<◌, ◌≡◌, refl, ap, ◌∙◌, fun_ext, inl, inr, false, arith, ltb, leb, ltb→lt,
  leb→le, ◌==◌, while_rule, Bool-cases,
}
use asym.Str.Memory.{Memory, IsBytes, store8, copied}
use asym.Str.Copy.{Cursor, back_round, backward, memmove}
use asym.Str.Copy.Memcpy.{mem-rest, start-Copied}

-- One byte more in front of what is copied, read from below it.
store8-copied_above :
    (m : Memory) (d' s' n' d s n : ℕ)
    → d' ≡ d + 1
    → s' ≡ s + 1
    → n ≡ n' + 1
    → s < d
    → store8 (copied m d' s' n') (d' - 1) (copied m d' s' n' (s' - 1)) ≡ copied m d s n
store8-copied_above m d' s' n' d s n ed es en h = fun_ext λ a. elim (Bool-cases (a == d' - 1)) [
  | inl e ↦ ground (arith, ap m {x = s' - 1} {y = s + (a - d)})
  | inr e ↦ ground (arith, ap m {x = s' + (a - d')} {y = s + (a - d)})
]

module _ (m : Memory) (dest src n : ℕ) (above : src < dest) where
  record Moved (c : Cursor) : Type 0 where
    left : c.count ≤ n
    at_d : c.d ≡ dest + c.count
    at_s : c.s ≡ src + c.count
    done : c.mem ≡ copied m (dest + c.count) (src + c.count) (n - c.count)

  back_round-Moved :
      (c : Cursor) → Moved c → 0 < c.count → Moved (back_round c) × ((back_round c).count < c.count)
  unfolding back_round
  back_round-Moved c i h = (
    record {
      left = omega arith;
      at_d = omega arith;
      at_s = omega arith;
      done =
          rw (i.done, i.at_d, i.at_s)
            (store8-copied_above m _ _ _ _ _ _ (omega arith) (omega arith) (omega arith)
              (omega arith));
    },
    omega arith,
  )

  mem-backward : (c : Cursor) → Moved c → (backward c).mem ≡ copied m dest src n
  unfolding backward
  mem-backward c i = finish (backward c) (
      while_rule _ back_round Moved (λ c. c.count) (c.count + 1) c (omega arith) i
        (λ c i t. back_round-Moved c i (ltb→lt 0 c.count t)))
    where
      finish : (c : Cursor) → Moved c × (ltb 0 c.count ≡ false) → c.mem ≡ copied m dest src n
      finish c (i, t) =
          let e : c.count ≡ 0 = ground arith in i.done ∙ rw e (fun_ext λ a. ground arith)

  start-Moved : Moved (record { d = dest + n; s = src + n; count = n; mem = m })
  start-Moved = record {
    left = omega arith;
    at_d = refl;
    at_s = refl;
    done = fun_ext λ a. ground arith;
  }

-- memmove returns `dest`, and leaves in the `count` bytes from there what stood in the `count` bytes
-- from `src` before the call, and every other byte as it was, however the two regions overlap.
pub memmove_lem :
    (m : Memory) (dest src count : ℕ)
    → IsBytes m
    → memmove m dest src count ≡ (copied m dest src count, dest)
unfolding memmove
memmove_lem m dest src count bytes = elim (Bool-cases (leb dest src)) [
  | inl e ↦ rw e (
      ap (λ (r : Memory). (r, dest))
        (mem-rest m bytes dest src count (inl (leb→le dest src e)) _
          (start-Copied m bytes dest src count (inl (leb→le dest src e)))))
  | inr e ↦
      let h : src < dest = ground arith in
      rw e (
        ap (λ (r : Memory). (r, dest))
          (mem-backward m dest src count h _ (start-Moved m dest src count h)))
]
