-- ===== src/Curl/Help.antt =====
-- curl/help.go: the text of `curl --help`, by its lines.
mod First
mod Second
use plt.Base.{List, ◌++◌, map, Text, codes}
use First.{first_lines}
use Second.{second_lines}

unfoldable pub help_lines : List Text
unfolding first_lines second_lines
help_lines = map codes (first_lines ++ second_lines)
