-- ===== src/Tests/Found.antt =====
-- Language servers that are found: two that are admitted, one that is too old, and a link.
use acp_proxy.Prelude.{
  ℕ, ◌≡◌, refl, true, Option, none, some, List, [], ◌∷◌, ◌++◌, ok, pos, if◌then◌else◌, ◌↔◌, arith,
  String,
}
use acp_proxy.NativeTransport.Frames.{Bytes, codes, spell, number}
use acp_proxy.Discovery.{
  inspect_binary, bounded_output, read_stdout, strip_eol, is_version, part, digits, split,
  format_version, parse_version, Probe, given, Host, same, probe_version,
}
use acp_proxy.Discovery.Version.{parse_version-format_version}
use acp_proxy.Discovery.Probed.{reads_of, flat, line_end, crlf, probe_version-format_version}
use acp_proxy.Discovery.Select.{before, select_best, canonical_paths, add, admit_all, minimum}
use acp_proxy.Discovery.Selection.{names, Chosen, select_best-names, select_best-Chosen}

abbrev chunks : List (ℕ × Bytes)
chunks = (49, codes ".5") ∷ (50, codes "0.0\r\n") ∷ []

abbrev prints : String → Option Probe
prints version =
    some (record { reads = given (codes version) ∷ given [] ∷ []; exit = some (pos 0) })

abbrev run : Bytes → Option Probe
run path =
    if same path (codes "/a")
    then prints "1.520.0\n"
    else if same path (codes "/b")
    then prints "1.9.7\n"
    else prints "1.520.0"

-- "/l" is a link to "/a", and "" has no canonical form.
abbrev host : Host
host = record {
  realpath = λ path.
      if same path (codes "/l")
      then some (codes "/a")
      else if same path []
      then none
      else some path;
  executable = λ path. true;
  run_version = run;
}

abbrev candidates : List Bytes
candidates = codes "/c" ∷ codes "/b" ∷ codes "/l" ∷ [] ∷ []

selected : select_best host true candidates ≡ ok (some (codes "/a"))
unfolding select_best canonical_paths add admit_all minimum before inspect_binary probe_version
    bounded_output read_stdout strip_eol parse_version is_version part digits split number
selected = refl

parse_version-format_version_example :
    (parse_version (codes "1.520.0") ≡ ok (1, 520, 0))
    ↔ (codes "1.520.0" ≡ format_version (1, 520, 0))
parse_version-format_version_example =
    parse_version-format_version (codes "1.520.0") (1, 520, 0) (omega arith)

printed : flat chunks ≡ format_version (1, 520, 0) ++ line_end crlf
unfolding format_version spell
printed = refl

probe_version-format_version_example :
    probe_version (some (record { reads = reads_of chunks; exit = some (pos 0) })) ≡ ok (1, 520, 0)
probe_version-format_version_example =
    probe_version-format_version (1, 520, 0) crlf chunks printed (omega arith)

same_names :
    (c : Bytes) → names host c (codes "/l" ∷ codes "/a" ∷ []) ≡ names host c (codes "/a" ∷ [])
same_names c = ground arith

select_best-names_example :
    select_best host true (codes "/l" ∷ codes "/a" ∷ []) ≡ select_best host true (codes "/a" ∷ [])
select_best-names_example =
    select_best-names host true (codes "/l" ∷ codes "/a" ∷ []) (codes "/a" ∷ []) same_names

select_best-Chosen_example : Chosen host true candidates (select_best host true candidates)
select_best-Chosen_example = select_best-Chosen host true candidates
