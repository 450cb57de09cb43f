-- ===== src/Startup/HelpTexts.antt =====
-- src/mqttvscpd.cpp: the texts of the options -g and -h, as the lines that they write.
use vscp_mqtt_daemon.Prelude.{
  ℕ, Bool, true, false, List, [], ◌∷◌, ◌++◌, Option, none, some, Text, bytes, ◌||◌, ◌&&◌, ◌==◌, ◌≡◌,
  arith, if◌then◌else◌,
}
use vscp_mqtt_daemon.Startup.Options.{
  Flag, flag_s, flag_c, flag_d, flag_r, flag_k, flag_g, flag_v, flag_h, other, default_start,
}

-- The version and the copyright, which the build fills in, are arguments.
unfoldable pub copyleft : Text → Text → List Text
copyleft version copyright =
    []
    ∷ []
    ∷ (bytes "vscpd - " ++ version)
    ∷ copyright
    ∷ []
    ∷ bytes "The MIT License (MIT)"
    ∷ bytes "Copyright (C) 2000-2026 Ake Hedman,  contributors,, contributors, the VSCP project"
    ∷ bytes "<info@vscp.org>"
    ∷ []
    ∷ bytes "Permission is hereby granted, free of charge, to any person obtaining a copy"
    ∷ bytes "of this software and associated documentation files (the 'Software'), to deal"
    ∷ bytes "in the Software without restriction, including without limitation the rights"
    ∷ bytes "to use, copy, modify, merge, publish, distribute, sublicense, and/or sell"
    ∷ bytes "copies of the Software, and to permit persons to whom the Software is"
    ∷ bytes "furnished to do so, subject to the following conditions:"
    ∷ []
    ∷ bytes "The above copyright notice and this permission notice shall be included in"
    ∷ bytes "all copies or substantial portions of the Software."
    ∷ []
    ∷ bytes "THE SOFTWARE IS PROVIDED 'AS IS', WITHOUT WARRANTY OF ANY KIND, EXPRESS OR"
    ∷ bytes "IMPLIED, INCLUDING BUT NOT LIMITED TO THE WARRANTIES OF MERCHANTABILITY,"
    ∷ bytes "FITNESS FOR A PARTICULAR PURPOSE AND NONINFRINGEMENT. IN NO EVENT SHALL THE"
    ∷ bytes "AUTHORS OR COPYRIGHT HOLDERS BE LIABLE FOR ANY CLAIM, DAMAGES OR OTHER"
    ∷ bytes "LIABILITY, WHETHER IN AN ACTION OF CONTRACT, TORT OR OTHERWISE, ARISING FROM,"
    ∷ bytes "OUT OF OR IN CONNECTION WITH THE SOFTWARE OR THE USE OR OTHER DEALINGS IN THE"
    ∷ bytes "SOFTWARE."
    ∷ []
    ∷ []

-- `name` is what the program was called by; `%s` is filled in with the defaults.
unfoldable pub help : Text → List Text
unfolding default_start
help name =
    (bytes "Usage: "
      ++ (name ++ bytes " [-hg] [-r rootfolder] [-c config-file] [-k key] -dd0,d1,d2..."))
    ∷ bytes "\t-h\tThis help message."
    ∷ bytes "\t-v\tPrint version. "
    ∷ bytes "\t-s\tStandalone (don't run as daemon). "
    ∷ (bytes "\t-r\tSpecify VSCP root folder (default:"
        ++ (default_start.root_folder ++ bytes "). "))
    ∷ bytes "\t-c\tSpecify a configuration file (with path). "
    ∷ bytes "\t-k\t32 byte encryption key string in hex format. "
    ∷ (bytes "that should be used (default: " ++ (default_start.config_file ++ bytes ")."))
    ∷ bytes "\t-g\tPrint MIT license."
    ∷ []

-- The letter of a line that begins with a tabulator and a dash.
abbrev letter_of : Text → Option ℕ
letter_of (t ∷ (dash ∷ (c ∷ rest))) = if t == 9 && (dash == 45) then some c else none
letter_of _ = none

abbrev any_is : ℕ → List ℕ → Bool
any_is c [] = false
any_is c (x ∷ xs) = c == x || any_is c xs

-- The letters of the lines that describe an option.
abbrev described : List Text → List ℕ
described [] = []
described (l ∷ ls) = elim (letter_of l) [ none ↦ described ls | some c ↦ c ∷ described ls ]

-- The case of the `switch` for a letter that getopt has found, `optarg` with it.
unfoldable pub flag_of : ℕ → Text → Flag
flag_of c optarg =
    if c == 115
    then flag_s
    else if c == 99
    then flag_c optarg
    else if c == 100
    then flag_d optarg
    else if c == 114
    then flag_r optarg
    else if c == 107
    then flag_k optarg
    else if c == 103
    then flag_g
    else if c == 118
    then flag_v
    else if c == 104
    then flag_h
    else other

abbrev is_known : Flag → Bool
is_known other = false
is_known _ = true

-- By whatever name the program was called, help describes the options h, v, s, r, c, k and g, in this
-- order. They and d, which only the line on the usage has, are those that `main` knows.
pub help-described :
    (name optarg : Text) (c : ℕ)
    → let letters = described (help name) in
      (letters ≡ bytes "hvsrckg") × (is_known (flag_of c optarg) ≡ (c == 100 || any_is c letters))
unfolding help flag_of
help-described name optarg c = ground arith
