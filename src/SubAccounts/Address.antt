-- ===== src/SubAccounts/Address.antt =====
-- src/engine/subaccount.ts, createSubAccount: the address of a sub-account, from a hash of 32 bits.
use Prim.Native.String.{String, [], ◌∷◌, ◌++◌, slice, len, char_at}
use Prim.Native.String.append
use Prim.Native.Char.{code}
use text.Mathlib.Text.{◌==◌ as str_eq}
use hy_paper.Prelude.{
  ℕ, zero, suc, ◌+◌, ◌-◌, ◌*◌, ◌/◌, ◌%◌, ◌≡◌, refl, ap, sym, ◌∙◌, if◌then◌else◌, ltb, arith,
}
use hy_paper.Prelude.Texts.{lower}

-- `((hash << 5) - hash + code) | 0`: the residue of a signed number of 32 bits.
pub hash_step : ℕ → ℕ → ℕ
hash_step h c = (31 * h + c) % 4_294_967_296

pub hash_text : ℕ → String → ℕ
unfolding hash_step
hash_text h [] = h
hash_text h (c ∷ s) = hash_text (hash_step h (code c)) s

-- `Math.abs` of the signed number.
magnitude : ℕ → ℕ
magnitude h = if ltb h 2_147_483_648 then h else 4_294_967_296 - h

-- The last `n` hexadecimal digits, with zeros in front.
hex_digits : ℕ → ℕ → String
hex_digits zero h = []
hex_digits (suc n) h = hex_digits n (h / 16) ++ (char_at "0123456789abcdef" (h % 16) ∷ [])

-- `replace(/^0x/i, '')`
strip_prefix : String → String
unfolding lower
strip_prefix s = if str_eq (lower (slice s 0 2)) "0x" then slice s 2 (len s) else s

zeros : ℕ → String
zeros zero = []
zeros (suc n) = "0" ++ zeros n

-- `padEnd` with zeros
pad_end : ℕ → String → String
unfolding zeros
pad_end n s = s ++ zeros (n - len s)

pub sub_address : String → String → String
unfolding hash_text magnitude hex_digits strip_prefix pad_end
sub_address master name =
    let hash = hash_text 0 (master ++ ":" ++ name) in
    let hash_hex = hex_digits 8 (magnitude hash) in
    let master_hex = slice (strip_prefix master) 0 32 in
    pad_end 42 (slice ("0x" ++ master_hex ++ hash_hex) 0 42)

hash-append : (h : ℕ) (s t : String) → hash_text h (s ++ t) ≡ hash_text (hash_text h s) t
unfolding hash_text
hash-append h [] t = ap (hash_text h) (λ i. append.nil t i)
hash-append h (c ∷ s) t =
    ap (hash_text h) (λ i. append.cons c s t i) ∙ hash-append (hash_step h (code c)) s t

two_steps : (h : ℕ) → hash_step (hash_step h 65) 97 ≡ hash_step (hash_step h 66) 66
unfolding hash_step
two_steps h = omega arith

same_hash : (h : ℕ) (p q : String) → hash_text h (p ++ "Aa" ++ q) ≡ hash_text h (p ++ "BB" ++ q)
unfolding hash_text
same_hash h p q =
    let k = hash_text h p in
    hash-append h p ("Aa" ++ q)
    ∙ hash-append k "Aa" q
    ∙ ap (λ m. hash_text m q) (two_steps k)
    ∙ sym (hash-append k "BB" q)
    ∙ sym (hash-append h p ("BB" ++ q))

-- Two names that differ in `Aa` and `BB` at one place give one master's sub-accounts the same address.
pub names_collide :
    (master p q : String)
    → sub_address master (p ++ "Aa" ++ q) ≡ sub_address master (p ++ "BB" ++ q)
unfolding sub_address
names_collide master p q =
    let k = hash_text (hash_text 0 master) ":" in
    let one : hash_text 0 (master ++ ":" ++ p ++ "Aa" ++ q)
        ≡ hash_text 0 (master ++ ":" ++ p ++ "BB" ++ q) =
      hash-append 0 master (":" ++ p ++ "Aa" ++ q)
      ∙ hash-append (hash_text 0 master) ":" (p ++ "Aa" ++ q)
      ∙ same_hash k p q
      ∙ sym (hash-append (hash_text 0 master) ":" (p ++ "BB" ++ q))
      ∙ sym (hash-append 0 master (":" ++ p ++ "BB" ++ q)) in
    rw one refl
