-- ===== src/Vpk/Sealed.antt =====
-- The checks of verify() in front of its loops, on what seal() writes.
use tug.Base.{
  ℕ, ◌+◌, ◌^◌, ◌<◌, false, List, [], ◌++◌, ltb, length, length-append, ◌≡◌, refl, arith, sym,
  append_assoc, append-nil, map,
}
use mathlib.Core.Path.{subst}
use tug.Base.Bytes.{
  little_endian, bytes_of, drop, take, slice, slice-append, little_endian-bytes_of_4,
  take-length_append,
}
use tug.Base.Text.{Text, text_eq_refl}
use tug.Base.Result.{◌>>=◌}
use tug.Content.{Entry, at_ext, read_tree, closed, vpk_entries, path_of}
use tug.Vpk.{Found, header, seal, see, compare_all, field, verify}

module _ (disk : Text → List ℕ) (crc32 : List ℕ → ℕ) where
  verify-read :
      (md5 : List ℕ → List ℕ) (b arc tree body : List ℕ) (n : ℕ) (entries : List Found)
      (es : List Entry)
      → ltb (length b) 28 ≡ false
      → field 0 b ≡ 1437209140
      → field 4 b ≡ 2
      → field 8 b ≡ n
      → field 12 b ≡ 0
      → field 16 b ≡ 0
      → slice 28 n b ≡ tree
      → slice (28 + n) 16 b ≡ md5 tree
      → take (28 + n + 32) b ≡ body
      → slice (28 + n + 32) 16 b ≡ md5 body
      → read_tree 18 0 at_ext [] (drop 28 b) ≡ (es, closed)
      → verify disk crc32 md5 b arc entries
        ≡ (see crc32 arc [] es >>= λ seen. compare_all disk seen entries)
  unfolding verify
  verify-read md5 b arc tree body n entries es long f0 f4 f8 f12 f16 part sum whole last read =
      let o : 28 + n + 0 + 0 ≡ 28 + n = omega arith in
      rw
        (
          verify,
          long,
          f0,
          f4,
          f8,
          f12,
          f16,
          o,
          part,
          sum,
          text_eq_refl (md5 tree),
          whole,
          last,
          text_eq_refl (md5 body),
          read,
        )
        refl

-- The bytes that seal() puts round a tree.
module _ (md5 : List ℕ → List ℕ) (sums : (s : List ℕ) → length (md5 s) ≡ 16) (tree : List ℕ) where
  abbrev pub body : List ℕ
  body = header (length tree) ++ (tree ++ (md5 tree ++ md5 []))

  abbrev pub rest : List ℕ
  rest = tree ++ (md5 tree ++ (md5 [] ++ md5 body))

  seal-shape : seal md5 tree ≡ header (length tree) ++ rest
  unfolding seal
  seal-shape =
      rw
        (
          append_assoc (header (length tree)) (tree ++ (md5 tree ++ md5 [])) (md5 body),
          append_assoc tree (md5 tree ++ md5 []) (md5 body),
          append_assoc (md5 tree) (md5 []) (md5 body),
        )
        refl

  seal-whole : seal md5 tree ≡ body ++ md5 body
  unfolding seal
  seal-whole = refl

  header-28 : length (header (length tree)) ≡ 28
  unfolding header
  header-28 = refl

  field-size : length tree < 2 ^ 32 → field 8 (header (length tree) ++ rest) ≡ length tree
  unfolding header take drop
  field-size h = little_endian-bytes_of_4 (length tree) h

  field-consts :
      (field 0 (header (length tree) ++ rest) ≡ 1437209140)
      × (field 4 (header (length tree) ++ rest) ≡ 2)
      × (field 12 (header (length tree) ++ rest) ≡ 0)
      × (field 16 (header (length tree) ++ rest) ≡ 0)
  unfolding header take drop little_endian bytes_of
  field-consts = (refl, refl, refl, refl)

  length-rest : length rest ≡ length tree + 48
  length-rest = omega (
    arith,
    length-append tree (md5 tree ++ (md5 [] ++ md5 body)),
    length-append (md5 tree) (md5 [] ++ md5 body),
    length-append (md5 []) (md5 body),
    sums tree,
    sums [],
    sums body,
  )

  -- The parts of the file, as verify() cuts them out.
  sealed-tree : slice 28 (length tree) (header (length tree) ++ rest) ≡ tree
  sealed-tree =
      slice-append (header (length tree)) tree (md5 tree ++ (md5 [] ++ md5 body)) 28 (length tree)
        (sym header-28) refl

  length-body : length body ≡ 28 + length tree + 32
  length-body = omega (
    arith,
    length-append (header (length tree)) (tree ++ (md5 tree ++ md5 [])),
    length-append tree (md5 tree ++ md5 []),
    length-append (md5 tree) (md5 []),
    header-28,
    sums tree,
    sums [],
  )

  sealed-sum : slice (28 + length tree) 16 (header (length tree) ++ rest) ≡ md5 tree
  sealed-sum =
      rw (sym (append_assoc (header (length tree)) tree (md5 tree ++ (md5 [] ++ md5 body)))) (
        slice-append (header (length tree) ++ tree) (md5 tree) (md5 [] ++ md5 body)
          (28 + length tree) 16
          (omega (arith, header-28, length-append (header (length tree)) tree)) (sym (sums tree)))

  sealed-body : take (28 + length tree + 32) (header (length tree) ++ rest) ≡ body
  sealed-body =
      rw (sym seal-shape, sym length-body, seal-whole) (take-length_append body (md5 body))

  sealed-last : slice (28 + length tree + 32) 16 (header (length tree) ++ rest) ≡ md5 body
  sealed-last =
      rw (sym seal-shape, seal-whole)
        (subst (λ r. slice (28 + length tree + 32) 16 (body ++ r) ≡ md5 body)
          (append-nil (md5 body))
          (slice-append body (md5 body) [] (28 + length tree + 32) 16 (sym length-body)
            (sym (sums body))))

  sealed-drop : drop 28 (header (length tree) ++ rest) ≡ rest
  unfolding header drop
  sealed-drop = refl

  -- A sealed tree passes the checks of verify() in front of its loops.
  pub seal-verify :
      (disk : Text → List ℕ) (crc32 : List ℕ → ℕ) (arc : List ℕ) (entries : List Found)
      (es : List Entry)
      → length tree < 2 ^ 32
      → read_tree 18 0 at_ext [] rest ≡ (es, closed)
      → verify disk crc32 md5 (seal md5 tree) arc entries
        ≡ (see crc32 arc [] es >>= λ seen. compare_all disk seen entries)
  seal-verify disk crc32 arc entries es small read =
      let long : ltb (length (header (length tree) ++ rest)) 28 ≡ false =
        ground (arith, length-append (header (length tree)) rest, header-28, length-rest) in
      let consts = field-consts in
      rw seal-shape (
        verify-read disk crc32 md5 (header (length tree) ++ rest) arc tree body (length tree)
          entries es long (consts.0) (consts.1) (field-size small) (consts.2) (consts.3) sealed-tree
          sealed-sum sealed-body sealed-last (rw sealed-drop read))

  -- The content index reads a sealed tree as it stands.
  pub seal-vpk_entries :
      length tree < 2 ^ 32
      → vpk_entries (seal md5 tree) ≡ map path_of ((read_tree 18 0 at_ext [] tree).0)
  unfolding vpk_entries
  seal-vpk_entries small =
      let long : ltb (length (header (length tree) ++ rest)) 12 ≡ false =
        ground (arith, length-append (header (length tree)) rest, header-28, length-rest) in
      let consts = field-consts in
      rw seal-shape (rw (vpk_entries, long, consts.0, consts.1, field-size small, sealed-tree) refl)
