-- ===== src/Cng/KeyMgmt/Strength.antt =====
-- rsa_modulus_size_to_strength_bits against the table of SP 800-57 that its comment names.
use make_down_file.Prelude.{ℕ, ◌-◌, ◌≤◌, ◌≡◌, leb, if◌then◌else◌, arith}
use make_down_file.Cng.KeyMgmt.{rsa_modulus_size_to_strength_bits}

-- SP 800-57 part 1, table 2: the strength of an RSA modulus of at least so many bits.
unfoldable pub sp800_57 : ℕ → ℕ
sp800_57 bits =
    if leb 15360 bits
    then 256
    else if leb 7680 bits
    then 192
    else if leb 3072 bits
    then 128
    else if leb 2048 bits
    then 112
    else if leb 1024 bits
    then 80
    else 0

-- For every modulus size the code reports the strength that the table gives to a modulus one bit
-- shorter; so at exactly 1024, 2048, 3072, 7680 and 15360 bits it reports 0, 80, 112, 128 and 192,
-- where the table has 80, 112, 128, 192 and 256.
pub strength-sp800_57 : (bits : ℕ) → rsa_modulus_size_to_strength_bits bits ≡ sp800_57 (bits - 1)
unfolding rsa_modulus_size_to_strength_bits sp800_57
strength-sp800_57 bits = ground arith

-- More bits never give less strength.
strength_mono :
    (a b : ℕ) → a ≤ b → rsa_modulus_size_to_strength_bits a ≤ rsa_modulus_size_to_strength_bits b
unfolding rsa_modulus_size_to_strength_bits
strength_mono a b h = ground arith
