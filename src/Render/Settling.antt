-- ===== src/Render/Settling.antt =====
-- render.go: the loop of `RenderParts` that settles the summary, which states the block's size.
use agentmemory.Prelude.{
  ℕ, zero, suc, ◌+◌, ◌-◌, ◌≤◌, ◌<◌, Bytes, ◌≡◌, refl, inl, inr, true, [], arith, length, ◌==◌,
  ==_iff, Bool-cases, width, width_mono, width_tenth,
}
use agentmemory.Render.Text.{summary}
use agentmemory.Render.Blocks.{settle}
use agentmemory.Render.Widths.{length-summary, summary_words}

module _ (shown left rest max limit : ℕ) where
  -- The summary for a size, and the size of the block with it.
  unfoldable pub line_at : ℕ → Bytes
  line_at size = summary shown left size (max - size) max limit

  unfoldable pub size_after : ℕ → ℕ
  unfolding line_at
  size_after size = rest + length (line_at size)

  -- The block but for the digits of the size.
  base : ℕ
  base = rest + summary_words + width shown + width left + width max + width max + width limit

  size_after-base : (size : ℕ) → size_after size ≡ base + width size
  unfolding size_after line_at base
  size_after-base size =
      omega (arith, length-summary shown left size (max - size) max limit (omega arith))

  base_wide : width max ≤ base
  unfolding base
  base_wide = omega arith

  -- The loop comes to the summary for a size that the block with it has, no larger than the size
  -- it began with.
  unfoldable pub Settles : ℕ → Bytes → ℕ → Type 0
  Settles rounds last size =
      (s : ℕ) × (settle rounds last shown left size rest max limit ≡ line_at s)
      × (size_after s ≡ s)
      × (s ≤ size)

  Settles-fixed :
      (rounds : ℕ) (last : Bytes) (size : ℕ)
      → (size_after size == size) ≡ true
      → Settles (suc rounds) last size
  unfolding Settles settle size_after line_at
  Settles-fixed rounds last size there = (size, rw there refl, (==_iff _ _).0 there, omega arith)

  Settles-round :
      (rounds : ℕ) (last : Bytes) (size : ℕ)
      → size_after size ≤ size
      → Settles rounds (line_at size) (size_after size)
      → Settles (suc rounds) last size
  unfolding Settles settle size_after line_at
  Settles-round rounds last size h (s, e, fixed, le) = elim (Bool-cases (size_after size == size)) [
    | inl there ↦ Settles-fixed rounds last size there
    | inr further ↦ (s, rw further e, fixed, omega (arith, le, h))
  ]

  size_after_mono : (n m : ℕ) → n ≤ m → size_after n ≤ size_after m
  size_after_mono n m h = omega (arith, size_after-base n, size_after-base m, width_mono n m h)

  -- Each round but the last lowers the size, which stays above what the block with the narrowest
  -- summary has.
  Settles-descending :
      (rounds : ℕ) (last : Bytes) (size : ℕ)
      → size_after size ≤ size
      → size < base + width base + rounds
      → Settles rounds last size
  Settles-descending zero last size h few = absurd (
      omega (
        arith,
        few,
        h,
        size_after-base size,
        width_mono base size (omega (arith, h, size_after-base size)),
      ))
  Settles-descending (suc rounds) last size h few = elim (Bool-cases (size_after size == size)) [
    | inl there ↦ Settles-fixed rounds last size there
    | inr further ↦ Settles-round rounds last size h (
        Settles-descending rounds (line_at size) (size_after size)
          (size_after_mono (size_after size) size h) (ground (arith, h, few, further)))
  ]

  -- The eight rounds are enough.
  pub settle-Settles : (size : ℕ) → size_after size ≤ size → size ≤ max → Settles 8 [] size
  settle-Settles size h within =
      let once = size_after-base size in
      let twice = size_after-base (size_after size) in
      let h' = size_after_mono (size_after size) size h in
      Settles-round 7 [] size h (
        Settles-round 6 _ (size_after size) h' (
          Settles-descending 6 _ (size_after (size_after size))
            (size_after_mono (size_after (size_after size)) (size_after size) h')
            (omega (
              arith,
              once,
              twice,
              width_mono size max within,
              width_tenth (size_after size) base
                  (omega (arith, once, base_wide, width_mono size max within)),
            ))))
