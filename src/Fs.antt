-- ===== src/Fs.antt =====
-- Paths of a backend (`RemotePath` of crates/passalong-core/src/fs/mod.rs), as the list of their
-- components, outermost first.
pub mod Confined
pub mod Disk
pub mod Io
pub mod Lookup
pub mod Made
pub mod Holds
pub mod Keeps
pub mod Renamed
pub mod Succeeds
use passalong.Prelude.{
  ℕ, Bool, true, false, ◌&&◌, ◌||◌, not, Option, none, some, List, [], ◌∷◌, ◌++◌, ◌==◌, any,
  is_empty, if◌then◌else◌, Text, text_eq, codes, Result, ok, err, ◌>>=◌,
}
use passalong.Store.Errors.{FsError, invalid_path}

abbrev pub RemotePath : Type 0
RemotePath = List Text

-- `RemotePath::root`
abbrev pub root : RemotePath
root = []

-- The `invalid` test of `RemotePath::join`
unfoldable pub is_invalid : Text → Bool
is_invalid component =
    is_empty component
    || text_eq component (codes ".")
    || text_eq component (codes "..")
    || any (λ c. c == b'/' || c == b'\\' || c == 0) component

-- `RemotePath::join`; the error's escaping is left out.
unfoldable pub join : RemotePath → Text → Result FsError RemotePath
unfolding is_invalid
join path component =
    if is_invalid component then err (invalid_path component) else ok (path ++ component ∷ [])

-- `str::split`
unfoldable pub add_char : ℕ → List Text → List Text
add_char b [] = (b ∷ []) ∷ []
add_char b (part ∷ parts) = (b ∷ part) ∷ parts

unfoldable pub split : ℕ → Text → List Text
unfolding add_char
split c [] = [] ∷ []
split c (b ∷ rest) = let parts = split c rest in if b == c then [] ∷ parts else add_char b parts

-- `try_fold` with `join`
unfoldable pub join_all : RemotePath → List Text → Result FsError RemotePath
unfolding join
join_all acc [] = ok acc
join_all acc (part ∷ parts) = join acc part >>= λ path. join_all path parts

-- `RemotePath::new`
unfoldable pub new : Text → Result FsError RemotePath
unfolding split join_all
new path = if is_empty path then ok root else join_all root (split b'/' path)

-- `RemotePath::as_str`
unfoldable pub as_str : RemotePath → Text
as_str [] = []
as_str (part ∷ []) = part
as_str (part ∷ next ∷ rest) = part ++ b'/' ∷ as_str (next ∷ rest)

-- `RemotePath::file_name`
unfoldable pub file_name : RemotePath → Option Text
file_name [] = none
file_name (part ∷ []) = some part
file_name (part ∷ next ∷ rest) = file_name (next ∷ rest)

-- `RemotePath::parent`
unfoldable pub parent : RemotePath → Option RemotePath
parent [] = none
parent (part ∷ []) = some []
parent (part ∷ next ∷ rest) = elim (parent (next ∷ rest)) [ none ↦ none | some p ↦ some (part ∷ p) ]

-- `SubFs::under`
unfoldable pub under_prefix : RemotePath → RemotePath → Result FsError RemotePath
unfolding join_all
under_prefix prefix path = join_all prefix path

unfoldable pub path_eq : RemotePath → RemotePath → Bool
path_eq [] [] = true
path_eq (a ∷ p) (b ∷ q) = text_eq a b && path_eq p q
path_eq _ _ = false

-- Whether `path` is `dir` or below it, and what it is there.
unfoldable pub below : RemotePath → RemotePath → Option RemotePath
below [] path = some path
below (a ∷ dir) [] = none
below (a ∷ dir) (b ∷ path) = if text_eq a b then below dir path else none
