-- ===== src/Memory/Inverse.antt =====
-- What a string function did, where it ended.
use native.Mathlib.Decide.{dec_le}
use multiplexing_proxy.Prelude.{
  ◌≡◌, refl, true, [], ◌∷◌, length, drop, done, arith, Ensures, Ensures-known, holds, faulted,
}
use multiplexing_proxy.Memory.Strings.{Bytes, c_str, terminated, strcpy, equal}
use multiplexing_proxy.Memory.Laws.{put-drop, put-fault, c_str-terminated, c_str-IsText}

-- `strcpy` that ends has copied a string.
pub strcpy-Ensures :
    (dst src : Bytes)
    → Ensures (λ r. (s : Bytes) × (c_str src ≡ done s) × (c_str r ≡ done s)) (strcpy dst src)
unfolding strcpy
strcpy-Ensures dst src = Ensures-known (c_str src) λ s q.
    elim (dec_le (length (terminated s)) (length dst)) [
      | yes room ↦
          rw (put-drop dst (terminated s) room) (
            holds
              (s, q, c_str-terminated s (drop (length (terminated s)) dst) (c_str-IsText src q)))
      | no over ↦ rw (put-fault dst (terminated s) (omega arith)) faulted
    ]

-- Strings that compare equal are equal.
pub equal-eq : (s t : Bytes) → equal s t ≡ true → s ≡ t
unfolding equal
equal-eq [] [] h = refl
equal-eq [] (c ∷ t) h = absurd (cc)
equal-eq (c ∷ s) [] h = absurd (cc)
equal-eq (c ∷ s) (d ∷ t) h = ground (arith, equal-eq s t)
