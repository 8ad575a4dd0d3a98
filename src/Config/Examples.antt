-- ===== src/Config/Examples.antt =====
-- A file with two sections, one of them in two parts.
use lars_study.Prelude.{◌≡◌, true, List, [], ◌∷◌, none, some, arith, Str, codes, decimal, ok}
use lars_study.Config.Trim.{is_space}
use lars_study.Config.Load.{ConfigFile, no_sections, load, get_string}
use lars_study.Config.Load.Lines.{Line, header, entry, comment, blank}
use lars_study.Config.Load.Written.{file_text, last_value, get_or, AllWritten, get_string-load}

abbrev port_line : Str → Line
port_line value = entry [] (codes "port") (codes " ") (codes " ") value (codes "\r")

abbrev file : List Line
file =
    comment [] b'#' (codes " reactor = net")
    ∷ header [] [] (codes "reactor") [] []
    ∷ port_line (codes "80")
    ∷ blank []
    ∷ header [] [] (codes "mysql") [] []
    ∷ header [] [] (codes "reactor") [] []
    ∷ port_line (decimal 7778)
    ∷ []

file-AllWritten : AllWritten file
unfolding is_space decimal
file-AllWritten = ground arith

get_string-load_example :
    (c : ConfigFile) × (load (some (file_text file)) no_sections ≡ ok (true, c))
    × ((section key default_value : Str)
        → get_string c section key default_value
          ≡ get_or (last_value none file section key none) default_value)
get_string-load_example = get_string-load file file-AllWritten tt
