-- ===== src/Strings/Escapes/Examples.antt =====
-- ec_string.h: JSON escapes, runs and the theorems at concrete texts.
use eclib.Common.{◌≡◌, refl, true, ◌++◌, some, arith}
use eclib.Common.Texts.{codes}
use eclib.Strings.{unicode2utf8}
use eclib.Strings.Escapes.{
  is_escaped, jstr_needesc, out_json_esc, jstr_toesc, unescaped, unescape_loop, has_backslash,
  jstr_fromesc, parse_json_utf16,
}
use eclib.Strings.Escapes.Roundtrip.{fromesc-toesc}
use eclib.Strings.Escapes.Codes.{code_escape, unescape-code, surrogate_lem}

run_all : Unit {0}
unfolding is_escaped jstr_needesc out_json_esc jstr_toesc unescaped unescape_loop has_backslash
    jstr_fromesc
run_all = tt

escapes : jstr_toesc (codes "a/b\t") ≡ codes "a\\/b\\t"
unfolding run_all
escapes = refl

needed : jstr_needesc (codes "a\"") ≡ true
unfolding run_all
needed = refl

unknown_escape : jstr_fromesc (codes "a\\xb\\") ≡ codes "ab"
unfolding run_all
unknown_escape = refl

fromesc-toesc_example : jstr_fromesc (jstr_toesc (codes "a/\"b\\\n")) ≡ codes "a/\"b\\\n"
fromesc-toesc_example = fromesc-toesc (codes "a/\"b\\\n")

unescape-code_example :
    jstr_fromesc (code_escape 0x20AC (codes "b")) ≡ unicode2utf8 0x20AC ++ jstr_fromesc (codes "b")
unescape-code_example = unescape-code 0x20AC (codes "b") (omega arith) refl

surrogate_lem_example :
    parse_json_utf16 (code_escape 0xD83D (code_escape 0xDE00 (codes "b"))) ≡ some (12, 0xF600)
surrogate_lem_example = surrogate_lem 0x1F600 (codes "b") (omega arith) (omega arith)
