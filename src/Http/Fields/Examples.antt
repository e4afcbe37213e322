-- ===== src/Http/Fields/Examples.antt =====
-- ec_string.h, ec_http.h: strnext and the fields, run on concrete texts.
use eclib.Common.{Bool, ◌≡◌, refl, [], none, some, true}
use eclib.Common.Texts.{codes}
use eclib.Http.{ieq}
use eclib.Http.Package.{getattr, get_head_filed}
use eclib.Http.Package.Samples.{upgrade}
use eclib.Http.Fields.Search.{check_head_filed_lem}
use eclib.Http.Fields.{
  keep_word, trim_tail, is_split, last_word, returned, next_out, strnext_loop, strnext, has_word,
  check_head_filed, has_keep_alive, get_websocket_key, ismethod,
}

run_all : Unit {0}
unfolding keep_word trim_tail is_split last_word returned next_out strnext_loop strnext has_word
    check_head_filed has_keep_alive get_websocket_key ismethod ieq getattr get_head_filed
run_all = tt

a_word :
    strnext (codes ",;") 80 (codes " keep-alive , Upgrade")
    ≡ (some (codes "keep-alive"), codes " Upgrade")
unfolding run_all
a_word = refl

too_long : strnext (codes ",;") 4 (codes "abcd") ≡ (none, [])
unfolding run_all
too_long = refl

keeps : has_keep_alive upgrade ≡ some true
unfolding run_all
keeps = refl

small_buffer : get_websocket_key 4 upgrade ≡ some none
unfolding run_all
small_buffer = refl

check_head_filed_lem_example :
    (b : Bool) × (check_head_filed (codes "upgrade") (codes "h2c") upgrade ≡ some b)
check_head_filed_lem_example = check_head_filed_lem (codes "upgrade") (codes "h2c") upgrade
