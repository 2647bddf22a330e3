-- ===== src/Sandbox/Seatbelt/Keys.antt =====
-- sandbox/policy.go: the texts of the keys, which differ for different keys.
use temenos.Base.{
  ℕ, zero, suc, ◌+◌, ◌*◌, ◌-◌, ◌/◌, ◌%◌, ◌<◌, ◌≡◌, ◌≢◌, refl, sym, ap, ◌∙◌, Bool, true, false, [],
  ◌∷◌, ◌++◌, Bytes, codes, bytes_eq, bytes_eq_iff, bytes_eq_refl, ltb, arith, Bool-cases, inl, inr,
}
use temenos.Sandbox.Seatbelt.{
  Key, metadata_root, readable_root, writable_root, decimal_from, key_text,
}

-- The number that digits stand for, behind those that have been read.
abbrev read : ℕ → Bytes → ℕ
read v [] = v
read v (c ∷ s) = read (v * 10 + (c - 48)) s

read-decimal_from :
    (fuel n : ℕ) (after : Bytes) → n < fuel → read 0 (decimal_from fuel n after) ≡ read n after
unfolding decimal_from
read-decimal_from zero n after h = ground arith
read-decimal_from (suc fuel) n after h = elim (Bool-cases (ltb n 10)) [
  | inl one ↦ rw one (ap (λ v. read v after) (omega arith))
  | inr more ↦ rw more (
      read-decimal_from fuel (n / 10) ((48 + n % 10) ∷ after) (ground arith)
      ∙ ap (λ v. read v after) (omega arith))
]

abbrev after_name : ℕ → Bytes → Bytes
after_name zero s = s
after_name (suc n) [] = []
after_name (suc n) (c ∷ s) = after_name n s

-- Texts of the keys of one kind, whose names have fourteen letters.
same_kind :
    (name : Bytes) (i j : ℕ)
    → ((s : Bytes) → after_name 14 (name ++ s) ≡ s)
    → bytes_eq (name ++ decimal_from (suc i) i []) (name ++ decimal_from (suc j) j []) ≡ true
    → i ≡ j
same_kind name i j cut h =
    let texts =
      (bytes_eq_iff (name ++ decimal_from (suc i) i []) (name ++ decimal_from (suc j) j [])).0 h in
    let digits : decimal_from (suc i) i [] ≡ decimal_from (suc j) j [] =
      sym (cut (decimal_from (suc i) i []))
      ∙ (ap (after_name 14) texts ∙ cut (decimal_from (suc j) j [])) in
    sym (read-decimal_from (suc i) i [] (omega arith))
    ∙ (ap (read 0) digits ∙ read-decimal_from (suc j) j [] (omega arith))

-- Whether two keys are the same text, as they are to sandbox-exec.
unfoldable pub is_key : Key → Key → Bool
unfolding key_text bytes_eq
is_key j k = bytes_eq (key_text j) (key_text k)

pub is_key_refl : (k : Key) → is_key k k ≡ true
unfolding is_key
is_key_refl k = bytes_eq_refl (key_text k)

pub metadata_root-differs : (i j : ℕ) → i ≢ j → is_key (metadata_root i) (metadata_root j) ≡ false
unfolding is_key
metadata_root-differs i j h = elim (Bool-cases (is_key (metadata_root i) (metadata_root j))) [
  | inl same ↦ absurd (h (same_kind (codes "METADATA_ROOT_") i j (λ s. refl) same))
  | inr differs ↦ differs
]

pub readable_root-differs : (i j : ℕ) → i ≢ j → is_key (readable_root i) (readable_root j) ≡ false
unfolding is_key
readable_root-differs i j h = elim (Bool-cases (is_key (readable_root i) (readable_root j))) [
  | inl same ↦ absurd (h (same_kind (codes "READABLE_ROOT_") i j (λ s. refl) same))
  | inr differs ↦ differs
]

pub writable_root-differs : (i j : ℕ) → i ≢ j → is_key (writable_root i) (writable_root j) ≡ false
unfolding is_key
writable_root-differs i j h = elim (Bool-cases (is_key (writable_root i) (writable_root j))) [
  | inl same ↦ absurd (h (same_kind (codes "WRITABLE_ROOT_") i j (λ s. refl) same))
  | inr differs ↦ differs
]
