-- ===== src/Domain/AgentId.antt =====
-- `validate_agent_id` of domain.rs, over the bytes of the text.
use Prim.Native.Char.{code}
use task_scheduler.Prelude.{
  ℕ, String, ◌≡◌, ◌≢◌, ◌≤◌, Bool, true, false, ◌&&◌, ◌||◌, List, [], ◌∷◌, arith, leb, ◌==◌, length,
  all, All, ◌⊎◌,
}

-- The bytes of an ASCII text.
abbrev pub codes : String → List ℕ
codes String.[] = []
codes (String.◌∷◌ c s) = code c ∷ codes s

-- u8::is_ascii_alphabetic, u8::is_ascii_alphanumeric
abbrev pub is_ascii_alphabetic : ℕ → Bool
is_ascii_alphabetic c = (leb b'A' c && leb c b'Z') || (leb b'a' c && leb c b'z')

abbrev pub is_ascii_alphanumeric : ℕ → Bool
is_ascii_alphanumeric c = is_ascii_alphabetic c || (leb b'0' c && leb c b'9')

-- bytes.first().is_some_and(p), bytes.last().is_some_and(p)
abbrev pub first_is : (ℕ → Bool) → List ℕ → Bool
first_is p [] = false
first_is p (b ∷ bs) = p b

abbrev pub last_is : (ℕ → Bool) → List ℕ → Bool
last_is p [] = false
last_is p (b ∷ []) = p b
last_is p (b ∷ c ∷ bs) = last_is p (c ∷ bs)

-- (1..=max).contains(&bytes.len())
abbrev pub length_within : ℕ → List ℕ → Bool
length_within limit bs = leb 1 (length bs) && leb (length bs) limit

abbrev is_id_byte : ℕ → Bool
is_id_byte b = is_ascii_alphanumeric b || (b == b'.' || (b == b'_' || b == b'-'))

unfoldable pub validate_agent_id : List ℕ → Bool
validate_agent_id bytes =
    length_within 64 bytes
    && (first_is is_ascii_alphanumeric bytes
        && (last_is is_ascii_alphanumeric bytes && all is_id_byte bytes))

-- A byte that separates the segments of a URL path, or a blank.
abbrev pub IsDelimiter : ℕ → Type 0
IsDelimiter b = (b ≡ b'/') ⊎ (b ≡ b'?') ⊎ (b ≡ b'#') ⊎ (b ≡ b'%') ⊎ (b ≡ b' ')

all_safe : (bs : List ℕ) → all is_id_byte bs ≡ true → All (λ b. (b ≤ 127) × (¬ IsDelimiter b)) bs
all_safe [] h = tt
all_safe (b ∷ bs) h = (ground arith, all_safe bs (ground arith))

-- A text that `validate_agent_id` accepts is one safe segment of a management path: it has 1 to 64
-- bytes, all ASCII and none a delimiter, and it is neither of the segments `.` and `..`.
pub validate_agent_id_safe :
    (bytes : List ℕ)
    → validate_agent_id bytes ≡ true
    → (1 ≤ length bytes)
      × (length bytes ≤ 64)
      × All (λ b. (b ≤ 127) × (¬ IsDelimiter b)) bytes
      × (bytes ≢ b'.' ∷ [])
      × (bytes ≢ b'.' ∷ b'.' ∷ [])
unfolding validate_agent_id
validate_agent_id_safe [] h = cc
validate_agent_id_safe (b ∷ bs) h =
    (ground arith, ground arith, all_safe (b ∷ bs) (ground arith), ground arith, ground arith)
