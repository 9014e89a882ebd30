-- ===== src/Detection/Naabu/Banner.antt =====
-- internal/detection/naabu.go: what is read from an open port, and what is kept of it.
use surfbot_agent.Base.{
  ℕ, zero, suc, ◌≤◌, ◌≡◌, refl, ◌∙◌, Bool, false, ◌&&◌, ◌||◌, List, [], ◌∷◌, map, arith,
  if◌then◌else◌, ltb, ltb→lt, ◌==◌, length, take, ◌⊎◌, inl, inr, Bool-cases, All,
}
use surfbot_agent.Base.Text.{Bytes}

abbrev pub http_likely_ports : List ℕ
http_likely_ports =
    80 ∷ 443 ∷ 8000 ∷ 8008 ∷ 8080 ∷ 8081 ∷ 8082 ∷ 8083 ∷ 8088 ∷ 8443 ∷ 8888 ∷ 9443 ∷ 10443 ∷ []

unfoldable pub has_port : List ℕ → ℕ → Bool
has_port [] p = false
has_port (q ∷ ps) p = q == p || has_port ps p

-- What a connection does: the bytes that the first read finds, whether the write works, and the bytes that the
-- second read finds. A read that fails finds none.
pub record Conn : Type 0 where
  pub passive : Bytes
  pub write_ok : Bool
  pub active : Bytes

abbrev pub buffer_size : ℕ
buffer_size = 256

abbrev pub non_empty_or : Bytes → Bytes → Bytes
non_empty_or [] other = other
non_empty_or (c ∷ s) other = c ∷ s

-- `nil` is the empty list: the caller only looks at the length.
unfoldable pub grab_banner : Conn → ℕ → Bytes
grab_banner conn port =
    non_empty_or (take buffer_size conn.passive) (
      if has_port http_likely_ports port && conn.write_ok then take buffer_size conn.active else [])

abbrev pub max_len : ℕ
max_len = 64

abbrev pub sanitize_byte : ℕ → ℕ
sanitize_byte b =
    if b == 13 || b == 10 || b == 9 then b else if ltb b 32 || ltb 126 b then b'.' else b

unfoldable pub sanitize_banner : Bytes → Bytes
sanitize_banner raw = map sanitize_byte (if ltb max_len (length raw) then take max_len raw else raw)

abbrev pub IsReadable : ℕ → Type 0
IsReadable b = ((32 ≤ b) × (b ≤ 126)) ⊎ (b ≡ 13) ⊎ (b ≡ 10) ⊎ (b ≡ 9)

sanitize_byte-IsReadable : (b : ℕ) → IsReadable (sanitize_byte b)
sanitize_byte-IsReadable b = ground arith

sanitize_byte_same : (b : ℕ) → IsReadable b → sanitize_byte b ≡ b
sanitize_byte_same b h = ground arith

length-map : (s : Bytes) → length (map sanitize_byte s) ≡ length s
length-map [] = refl
length-map (b ∷ s) = omega (arith, length-map s)

map-All : (s : Bytes) → All IsReadable (map sanitize_byte s)
map-All [] = tt
map-All (b ∷ s) = (sanitize_byte-IsReadable b, map-All s)

map_same : (s : Bytes) → All IsReadable s → map sanitize_byte s ≡ s
map_same [] a = refl
map_same (b ∷ s) (h, a) = rw (sanitize_byte_same b h, map_same s a) refl

length-take : (n : ℕ) (s : Bytes) → n ≤ length s → length (take n s) ≡ n
length-take zero s h = refl
length-take (suc n) [] h = absurd (omega arith)
length-take (suc n) (b ∷ s) h = omega (arith, length-take n s (omega arith))

-- What is kept of a banner is at most 64 bytes, all readable, one for each byte of the banner up to there; and
-- a banner of at most 64 readable bytes is kept as it is.
pub sanitize_banner_lem :
    (raw : Bytes)
    → (length (sanitize_banner raw) ≡ (if ltb max_len (length raw) then max_len else length raw))
      × (length (sanitize_banner raw) ≤ max_len)
      × All IsReadable (sanitize_banner raw)
      × (All IsReadable raw → length raw ≤ max_len → sanitize_banner raw ≡ raw)
unfolding sanitize_banner
sanitize_banner_lem raw = elim (Bool-cases (ltb max_len (length raw))) [
  | inl long ↦
      let over = ltb→lt max_len (length raw) long in
      let kept : length (take max_len raw) ≡ max_len = length-take max_len raw (ground arith) in
      let e : length (map sanitize_byte (take max_len raw)) ≡ max_len =
        length-map (take max_len raw) ∙ kept in
      rw long
        (e, rw e (omega arith), map-All (take max_len raw), λ a short. absurd (omega (arith, over)))
  | inr whole ↦
      rw (whole, length-map raw) (refl, ground arith, map-All raw, λ a short. map_same raw a)
]
