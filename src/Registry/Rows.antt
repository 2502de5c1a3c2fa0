-- ===== src/Registry/Rows.antt =====
-- registry/metadata.py and registry/storage.py: the table of artifacts and the paths of blobs.
use forge_ci_cd_platform.Base.{
  ◌≡◌, refl, List, [], ◌∷◌, ◌++◌, none, some, ◌&&◌, arith, Str, ◌==◌, if◌then◌else◌, codes,
}
use forge_ci_cd_platform.Base.Dict.{Dict, lookup, lookup-insert, contains-keys_of_lookup}
use forge_ci_cd_platform.Registry.{Row, find_row, prefix, blob_path, store_blob}

-- A row at the end is found just if no earlier row has its name and version.
pub find_row-append :
    (name version : Str) (rows : List Row) (r : Row)
    → find_row name version (rows ++ r ∷ []) ≡ (elim (find_row name version rows) [
      | none ↦ if name == r.name && version == r.version then some r else none
      | some q ↦ some q
    ])
find_row-append name version [] r = refl
find_row-append name version (q ∷ rows) r = ground (arith, find_row-append name version rows r)

-- What is behind the directory in the path of a blob tells the checksum.
suffix_injective : (s t : Str) → prefix s ++ b'/' ∷ s ≡ prefix t ++ b'/' ∷ t → s ≡ t
suffix_injective [] [] e = refl
suffix_injective [] (a ∷ []) e = cc
suffix_injective [] (a ∷ b ∷ t) e = cc
suffix_injective (a ∷ []) [] e = cc
suffix_injective (a ∷ []) (c ∷ []) e = cc
suffix_injective (a ∷ []) (c ∷ d ∷ t) e = cc
suffix_injective (a ∷ b ∷ s) [] e = cc
suffix_injective (a ∷ b ∷ s) (c ∷ []) e = cc
suffix_injective (a ∷ b ∷ s) (c ∷ d ∷ t) e = cc

cancel_left : (dir s t : Str) → dir ++ s ≡ dir ++ t → s ≡ t
cancel_left [] s t e = e
cancel_left (c ∷ dir) s t e = cancel_left dir s t (cc)

-- Two checksums with one path are the same.
pub blob_path_injective : (dir s t : Str) → blob_path dir s ≡ blob_path dir t → s ≡ t
unfolding blob_path
blob_path_injective dir s t e =
    let below : codes "/blobs/" ++ (prefix s ++ b'/' ∷ s)
        ≡ codes "/blobs/" ++ (prefix t ++ b'/' ∷ t) =
      cancel_left dir (codes "/blobs/" ++ (prefix s ++ b'/' ∷ s))
        (codes "/blobs/" ++ (prefix t ++ b'/' ∷ t)) e in
    suffix_injective s t
      (cancel_left (codes "/blobs/") (prefix s ++ b'/' ∷ s) (prefix t ++ b'/' ∷ t) below)

module _ (dir : Str) (digest : Str → Str) where
  -- Blobs are not overwritten.
  pub store_blob-keeps :
      (content path : Str) (files : Dict Str) {c : Str}
      → lookup path files ≡ some c
      → lookup path (store_blob dir digest content files).1 ≡ some c
  unfolding store_blob
  store_blob-keeps content path files h = ground (
    arith,
    contains-keys_of_lookup path files h,
    lookup-insert path (blob_path dir (digest content)) content files,
  )
