-- ===== src/Uploads.antt =====
-- backend/src/uploads/uploads.service.ts and backend/src/common/upload.options.ts: which files are
-- taken as images, and what happens to the temporary file.
use gall_pr.Common.{
  ℕ, ◌+◌, ◌≡◌, refl, String, Bool, true, false, not, ◌&&◌, ◌||◌, List, [], ◌∷◌, length, take, drop,
  ltb, ◌==◌, str_eq, if◌then◌else◌, bad_request, Result, ok, err,
}
use Prim.Native.String

-- A magic number at an offset, as bytes.
pub record Signature : Type 0 where
  pub offset : ℕ
  pub bytes : List ℕ

-- `IMAGE_SIGNATURES`: JPEG, PNG, the WEBP of RIFF, and the ftyp of HEIC.
abbrev pub image_signatures : List Signature
image_signatures =
    record { offset = 0; bytes = 0xff ∷ 0xd8 ∷ 0xff ∷ [] }
    ∷ record { offset = 0; bytes = 0x89 ∷ 0x50 ∷ 0x4e ∷ 0x47 ∷ [] }
    ∷ record { offset = 8; bytes = 0x57 ∷ 0x45 ∷ 0x42 ∷ 0x50 ∷ [] }
    ∷ record { offset = 4; bytes = 0x66 ∷ 0x74 ∷ 0x79 ∷ 0x70 ∷ [] }
    ∷ []

abbrev pub header_bytes : ℕ
header_bytes = 16

-- `equals` of two buffers.
unfoldable pub equals : List ℕ → List ℕ → Bool
equals [] [] = true
equals [] (y ∷ ys) = false
equals (x ∷ xs) [] = false
equals (x ∷ xs) (y ∷ ys) = x == y && equals xs ys

-- One entry of `some`, on the bytes that were read of the file.
unfoldable pub has_signature : List ℕ → Signature → Bool
unfolding equals
has_signature header s =
    not (ltb (length header) (s.offset + length s.bytes))
    && equals (take (length s.bytes) (drop s.offset header)) s.bytes

unfoldable pub has_any : List ℕ → List Signature → Bool
unfolding has_signature
has_any header [] = false
has_any header (s ∷ ss) = has_signature header s || has_any header ss

-- `looksLikeImage`, on the bytes of the file.
unfoldable pub looks_like_image : List ℕ → Bool
unfolding has_any
looks_like_image file = has_any (take header_bytes file) image_signatures

-- `uploadImage`, on what the storage service would answer: the address of the image, and whether
-- the temporary file is removed.
unfoldable pub upload_image : List ℕ → Result String → Result String × Bool
unfolding looks_like_image
upload_image file stored = (
  (if looks_like_image file
      then stored
      else err (bad_request "Файл не є зображенням: JPG, PNG, WEBP або HEIC")),
  true,
)

abbrev pub max_image_bytes : ℕ
max_image_bytes = 10485760

abbrev pub allowed_mime_types : List String
allowed_mime_types = "image/jpeg" ∷ "image/png" ∷ "image/webp" ∷ "image/heic" ∷ "image/heif" ∷ []

abbrev pub allowed_extensions : List String
allowed_extensions = ".jpg" ∷ ".jpeg" ∷ ".png" ∷ ".webp" ∷ ".heic" ∷ ".heif" ∷ []

unfoldable pub has : List String → String → Bool
has [] s = false
has (x ∷ xs) s = str_eq x s || has xs s

-- `safeFilename`, on the lower-case extension, the time and the random part.
unfoldable pub safe_filename : String → String → String → String
unfolding has
safe_filename extension time random = String.◌++◌ time (
    String.◌++◌ "-"
      (String.◌++◌ random (if has allowed_extensions extension then extension else ".bin")))

-- `fileFilter`, on the lower-case extension.
unfoldable pub file_filter : String → String → Result Bool
unfolding has
file_filter mimetype extension =
    if not (has allowed_mime_types mimetype) || not (has allowed_extensions extension)
    then err (bad_request "Підтримуються лише зображення: JPG, PNG, WEBP або HEIC")
    else ok true

-- A film begins with a length and `ftyp`, as an image of the kind HEIC does.
film_example : looks_like_image (0 ∷ 0 ∷ 0 ∷ 24 ∷ 0x66 ∷ 0x74 ∷ 0x79 ∷ 0x70 ∷ 0x69 ∷ []) ≡ true
unfolding looks_like_image
film_example = refl

short_example : looks_like_image (0xff ∷ 0xd8 ∷ []) ≡ false
unfolding looks_like_image
short_example = refl
