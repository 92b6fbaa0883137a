-- ===== src/Runner/Specs.antt =====
-- cmd/gvtest/handlers.go: the specification of a client or a server, as text, from the block of its
-- command.
use gtest.Common.{
  Bool, false, not, ◌&&◌, ◌||◌, List, [], ◌∷◌, ◌++◌, Option, none, some, if◌then◌else◌, Bytes,
  codes,
}
use gtest.Common.Strings.{has_prefix, contains}
use gtest.Common.Texts.{to_lower}
use gtest.Vtc.{Node, Nodes, node, no_nodes, add_node, command_node}
use gtest.Http2.Handler.FrameActions.{join}

unfoldable pub needs_quoting : Bytes → Bool
needs_quoting arg =
    contains arg (codes " ") || (contains arg (codes ":") && not (has_prefix arg (codes "-")))

abbrev pub quoted : Bytes → Bytes
quoted arg = if needs_quoting arg then b'"' ∷ (arg ++ (b'"' ∷ [])) else arg

abbrev pub quoted_all : List Bytes → List Bytes
quoted_all [] = []
quoted_all (a ∷ args) = quoted a ∷ quoted_all args

unfoldable pub join_args : List Bytes → Bytes
unfolding join
join_args args = join (codes " ") (quoted_all args)

-- The arguments before the first flag, and from it on; `none` where there is no flag.
abbrev pub put_before : Bytes → Option (List Bytes × List Bytes) → Option (List Bytes × List Bytes)
put_before a none = none
put_before a (some (before, flags)) = some (a ∷ before, flags)

unfoldable pub split_flags : List Bytes → Option (List Bytes × List Bytes)
split_flags [] = none
split_flags (a ∷ args) =
    let rest = split_flags args in
    if has_prefix a (codes "-") then some ([], a ∷ args) else put_before a rest

abbrev pub with_blank : Bytes → Bytes
with_blank s = b' ' ∷ s

-- The block of a command stands before its first flag.
abbrev pub with_flags : Bytes → List Bytes → Bytes → Option (List Bytes × List Bytes) → Bytes
with_flags name args spec none = name ++ (with_blank (join_args args) ++ with_blank spec)
with_flags name args spec (some (before, flags)) =
    name ++ (with_blank (join_args before) ++ (with_blank spec ++ with_blank (join_args flags)))

unfoldable pub block_line : Bytes → List Bytes → Bytes → Bytes
unfolding split_flags join_args
block_line name [] spec = name ++ with_blank spec
block_line name (a ∷ args) spec = with_flags name (a ∷ args) spec (split_flags (a ∷ args))

unfoldable pub simple_line : Bytes → List Bytes → Bytes
unfolding join_args
simple_line name [] = name
simple_line name (a ∷ args) = name ++ with_blank (join_args (a ∷ args))

-- The loop over the children: one line for each command. The lines of its own block are joined by
-- bars.
unfoldable mutual
  unfolding block_line simple_line join

  pub spec_lines : Nodes → List Bytes
  spec_lines no_nodes = []
  spec_lines (add_node n ns) = node_line n (spec_lines ns)

  pub node_line : Node → List Bytes → List Bytes
  node_line (node command_node name args no_nodes line) rest = simple_line name args ∷ rest
  node_line (node command_node name args (add_node n ns) line) rest =
      block_line name args (join (codes "|||") (node_line n (spec_lines ns))) ∷ rest
  node_line (node _ name args children line) rest = rest

unfoldable pub node_to_spec_with_delim : Nodes → Bytes → Bytes
unfolding spec_lines
node_to_spec_with_delim children delim = join delim (spec_lines children)

unfoldable pub node_to_spec : Nodes → Bytes
unfolding node_to_spec_with_delim
node_to_spec children = node_to_spec_with_delim children (codes "\n")

abbrev http2_keywords : List Bytes
http2_keywords =
    codes "txpri"
    ∷ codes "rxpri"
    ∷ codes "stream "
    ∷ codes "txsettings"
    ∷ codes "rxsettings"
    ∷ codes "txping"
    ∷ codes "rxping"
    ∷ codes "txgoaway"
    ∷ codes "rxgoaway"
    ∷ codes "txwinup"
    ∷ codes "rxwinup"
    ∷ codes "txprio"
    ∷ codes "rxprio"
    ∷ []

unfoldable pub contains_any : Bytes → List Bytes → Bool
contains_any s [] = false
contains_any s (k ∷ ks) = contains s k || contains_any s ks

unfoldable pub is_http2_spec : Bytes → Bool
unfolding contains_any to_lower
is_http2_spec spec = contains_any (to_lower spec) http2_keywords
