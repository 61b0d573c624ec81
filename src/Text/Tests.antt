-- ===== src/Text/Tests.antt =====
-- Four bytes moved by one, and a text cut to its room.
use xv6_memory_management_im.Common.{ℕ, ◌+◌, ◌≡◌, refl, arith, inl}
use xv6_memory_management_im.Text.{memmove, move_down, move_up, safestrcpy, copy_text}
use xv6_memory_management_im.Text.Move.{IsMoved, memmove-IsMoved}
use xv6_memory_management_im.Text.Copy.{IsCopied, safestrcpy-IsCopied}

-- Byte k of memory is k + 1.
abbrev numbered : ℕ → ℕ
numbered = λ k. k + 1

moved_down : memmove 11 10 4 numbered 14 ≡ 14
unfolding memmove move_down move_up
moved_down = refl

cut_text : safestrcpy 50 10 3 numbered 52 ≡ 0
unfolding safestrcpy copy_text
cut_text = refl

memmove-IsMoved_example : IsMoved 11 10 4 numbered (memmove 11 10 4 numbered)
memmove-IsMoved_example = memmove-IsMoved 11 10 4 numbered

safestrcpy-IsCopied_example : IsCopied 50 10 3 numbered (safestrcpy 50 10 3 numbered)
safestrcpy-IsCopied_example = safestrcpy-IsCopied 50 10 3 numbered (omega arith) (inl (omega arith))
