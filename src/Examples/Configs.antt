-- ===== src/Examples/Configs.antt =====
-- Runs on configuration files.
use webserer_core.Base.{
  ℕ, ◌+◌, ◌^◌, ◌≡◌, refl, ◌≤◌, List, [], ◌∷◌, Option, none, some, true, false, Bytes, codes, length,
  Outcome, outcome_map, returned, thrown, hung, Ensures, arith, equal, ◌*◌, leb, if◌then◌else◌,
}
use webserer_core.Blocks.Top.{parse_conf}
use webserer_core.Blocks.Whole.{HttpReady, parse_conf-Ensures}
use webserer_core.Config.Match.{All}
use webserer_core.Examples.Data.{whole_numbers, whole_numbers-Exact, all_files, small_conf}
use webserer_core.Lexing.{
  lex, TokenType, Token, storing_in_vec, remove_comments, insert_space, refactoring_buffer, context,
  lbrace, rbrace, end,
}
use webserer_core.Lexing.OnePass.{storing_in_vec-read_tokens, read_tokens}
use webserer_core.Numerals.{max_long, safe_strtol, int_within}
use webserer_core.Numerals.Bounds.{int_within-wraps}
use webserer_core.Settings.Defaults.{new_server, default_server}
use webserer_core.Blocks.Nested.{finish_server}
use webserer_core.Sizes.{parse_cl_mx_bd_sz, unit_size}
use webserer_core.Sizes.Exact.{parse_cl_mx_bd_sz-decimal}
use webserer_core.Text.Decimal.{decimal}
use webserer_core.Validation.{api_conf, max_servers}
use webserer_core.Validation.Limits.{ServerServed}
use webserer_core.Validation.Served.{Distinct, api_conf-Ensures}

storing_in_vec-read_tokens_example :
    outcome_map
      (λ t. storing_in_vec (refactoring_buffer t))
      (remove_comments (insert_space small_conf))
    ≡ read_tokens false [] small_conf
storing_in_vec-read_tokens_example = storing_in_vec-read_tokens small_conf

api_conf-Ensures_example :
    Ensures
      (λ servers.
        All (ServerServed all_files) servers
        × Distinct servers
        × (1 ≤ length servers)
        × (length servers ≤ max_servers))
      (api_conf all_files whole_numbers small_conf)
api_conf-Ensures_example = api_conf-Ensures all_files whole_numbers small_conf

served_one : outcome_map length (api_conf all_files whole_numbers small_conf) ≡ returned 1
unfolding api_conf webserer_core.Lexing.lex webserer_core.Lexing.is_valid
    webserer_core.Lexing.is_mark webserer_core.Lexing.is_quote webserer_core.Lexing.is_blank_text
    webserer_core.Lexing.drop_first_space webserer_core.Lexing.drop_last_space
    webserer_core.Lexing.collapse webserer_core.Lexing.is_space parse_conf
    webserer_core.Blocks.Top.top_loop webserer_core.Lexing.token webserer_core.Lexing.identify
    webserer_core.Base.equal webserer_core.Blocks.Nested.parse_http webserer_core.Blocks.open_brace
    webserer_core.Blocks.Nested.http_loop webserer_core.Blocks.Nested.parse_server
    webserer_core.Blocks.Nested.server_loop webserer_core.Blocks.Nested.server_of
    webserer_core.Blocks.consume_values webserer_core.Blocks.is_repeated
    webserer_core.Settings.set_server webserer_core.Numerals.all_digits
    webserer_core.Numerals.read_long webserer_core.Text.is_digit webserer_core.Target.find_byte
    webserer_core.Numerals.safe_strtol webserer_core.Numerals.int_within
    webserer_core.Settings.no_empty webserer_core.Blocks.Nested.parse_location
    webserer_core.Blocks.location_path webserer_core.Blocks.is_path_char
    webserer_core.Blocks.Nested.location_loop webserer_core.Settings.set_location
    webserer_core.Blocks.Nested.finish_server webserer_core.Blocks.all_extensions
    webserer_core.Blocks.has_extension webserer_core.Blocks.Nested.index_names_ok
    webserer_core.Blocks.Nested.check_for_allowed_methods webserer_core.Blocks.Nested.location_of
    webserer_core.Blocks.paths_differ
served_one = refl

-- The tokens of a configuration that is taken, as `served_one` shows.
abbrev small_tokens : List Token
small_tokens = elim (lex small_conf) [ returned ts ↦ ts | thrown ↦ [] | hung ↦ [] ]

parse_conf-Ensures_example :
    Ensures HttpReady (parse_conf (parse_cl_mx_bd_sz whole_numbers) small_tokens)
parse_conf-Ensures_example = parse_conf-Ensures (parse_cl_mx_bd_sz whole_numbers) small_tokens

int_within-wraps_example : int_within 1 65535 (80 + 2 ^ 32) ≡ int_within 1 65535 80
int_within-wraps_example = int_within-wraps 1 65535 80

parse_cl_mx_bd_sz-decimal_example :
    parse_cl_mx_bd_sz whole_numbers (codes "10k") ≡ some (decimal 0 (codes "10") * 1024)
unfolding unit_size equal decimal webserer_core.Text.is_digit
parse_cl_mx_bd_sz-decimal_example =
    parse_cl_mx_bd_sz-decimal whole_numbers 1000000 whole_numbers-Exact b'1' (b'0' ∷ []) (codes "k")
      1024 (refl, (refl, tt)) (refl, refl) refl (omega arith) (omega arith)

default_is_whole : finish_server (default_server new_server) ≡ returned (default_server new_server)
unfolding finish_server default_server new_server webserer_core.Blocks.all_extensions
    webserer_core.Blocks.has_extension webserer_core.Blocks.Nested.index_names_ok
    webserer_core.Blocks.paths_differ equal
default_is_whole = refl
