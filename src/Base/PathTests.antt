-- ===== src/Base/PathTests.antt =====
-- Known values of the library functions modelled.
use mathlib.Core.Path.{◌≡◌, refl}
use gcp.Base.Text.{str, equal}
use gcp.Base.FilePath.{clean, join, base, dir, split_path}
use gcp.Base.Crc32.{checksum_ieee}
use mathlib.Core.List.{[]}

clean_up : clean (str "/a/./b/../../../c//d/") ≡ str "/c/d"
unfolding clean equal
clean_up = refl

clean_rel : clean (str "a/../../b") ≡ str "../b"
unfolding clean equal
clean_rel = refl

clean_empty : clean [] ≡ str "."
unfolding clean equal
clean_empty = refl

join_home : join (str "/home/u") (str "x/../y") ≡ str "/home/u/y"
unfolding join equal
join_home = refl

base_slash : base (str "/a/b/") ≡ str "b"
unfolding base
base_slash = refl

base_empty : base [] ≡ str "."
unfolding base
base_empty = refl

dir_root : dir (str "/x") ≡ str "/"
unfolding dir
dir_root = refl

dir_rel : dir (str "x") ≡ str "."
unfolding dir
dir_rel = refl

split_rel : split_path (str "/d/*.txt") ≡ (str "/d/", str "*.txt")
unfolding split_path
split_rel = refl

crc_check : checksum_ieee (str "123456789") ≡ 0xCBF4_3926
unfolding checksum_ieee
crc_check = refl
