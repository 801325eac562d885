-- ===== src/String/Wide.antt =====
-- src/wstring.c: WSTRING, over wchar_t. Its functions are those of STRING, with wcslen for strlen,
-- wcsncpy for strncpy and wcsncmp for strncmp.
use c_algorithm.Base.{ℕ, Bool, List, Option, ℤ, Run}
use c_algorithm.String.{
  Texts, String, open_string, open_string_with_data, close_string, string_len, string_data,
  string_clear, string_empty, string_cpy, string_cmp,
}

abbrev pub WString : Type 0
WString = String

abbrev pub open_wstring : WString
open_wstring = open_string

abbrev pub open_wstring_with_data : List ℕ → Texts → Run (WString × Texts)
open_wstring_with_data = open_string_with_data

abbrev pub close_wstring : WString → Texts → Run Texts
close_wstring = close_string

abbrev pub wstring_len : WString → ℕ
wstring_len = string_len

abbrev pub wstring_data : WString → Option ℕ
wstring_data = string_data

abbrev pub wstring_clear : WString → Texts → Run (WString × Texts)
wstring_clear = string_clear

abbrev pub wstring_empty : WString → Bool
wstring_empty = string_empty

abbrev pub wstring_cpy : WString → WString → Texts → Run (WString × Texts)
wstring_cpy = string_cpy

abbrev pub wstring_cmp : WString → WString → Texts → Run ℤ
wstring_cmp = string_cmp
