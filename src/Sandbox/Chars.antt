-- ===== src/Sandbox/Chars.antt =====
-- <cctype> in the C locale, on bytes, as sandbox/compiler.hpp uses it.
use robonode.Prelude.{ℕ, Bool, ◌&&◌, ◌||◌, leb, ◌==◌}

unfoldable pub isspace : ℕ → Bool
isspace c = leb 9 c && leb c 13 || c == b' '

unfoldable pub isdigit : ℕ → Bool
isdigit c = leb b'0' c && leb c b'9'

unfoldable pub isalpha : ℕ → Bool
isalpha c = leb b'A' c && leb c b'Z' || leb b'a' c && leb c b'z'

unfoldable pub isalnum : ℕ → Bool
unfolding isdigit isalpha
isalnum c = isalpha c || isdigit c
