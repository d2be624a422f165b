-- ===== src/ImageRef/Naming.antt =====
-- The names that `ScanName` of pkg/imageref/imageref.go gives to ImageScan resources.
use aqua_scan_gate.Common.{
  ℕ, ◌≤◌, Text, codes, [], ◌++◌, ◌≡◌, ◌≢◌, arith, ◌==◌, eq_iff, length, length-take-le, take,
  replace_byte, ltb, if◌then◌else◌, Bool-cases, inl, inr,
}
use aqua_scan_gate.ImageRef.{ImageRef, scan_name}

length-cut-le :
    (n : ℕ) (name : Text) → length (if ltb n (length name) then take n name else name) ≤ n
length-cut-le n name = ground (arith, length-take-le n name)

length-hashed-le : (hash : Text) → length (codes "img-" ++ take 56 hash) ≤ 63
length-hashed-le hash = omega (arith, length-take-le 56 hash)

module _ (hash_string : Text → Text) where
  -- A name has at most 63 bytes, whatever the image, the digest and the hash.
  pub length-scan_name-le : (img : ImageRef) → length (scan_name hash_string img) ≤ 63
  unfolding scan_name
  length-scan_name-le img = elim (Bool-cases (img.digest == [])) [
    | inl e ↦ rw (e, scan_name) (length-hashed-le (hash_string img.image))
    | inr e ↦ rw (e, scan_name) (length-cut-le 63 (replace_byte b':' b'-' img.digest))
  ]

  -- Two references with the same digest, not empty, share one scan, whatever their images are called.
  pub scan_name-same_digest :
      (a b : ImageRef)
      → a.digest ≢ []
      → a.digest ≡ b.digest
      → scan_name hash_string a ≡ scan_name hash_string b
  unfolding scan_name
  scan_name-same_digest a b h e = ground (arith, eq_iff a.digest [], eq_iff b.digest [])

  -- Without a digest the name depends on the first 56 digits of the image's hash alone.
  pub scan_name-same_hash :
      (a b : ImageRef)
      → a.digest ≡ []
      → b.digest ≡ []
      → take 56 (hash_string a.image) ≡ take 56 (hash_string b.image)
      → scan_name hash_string a ≡ scan_name hash_string b
  unfolding scan_name
  scan_name-same_hash a b h k e = ground (arith, eq_iff a.digest [], eq_iff b.digest [])
