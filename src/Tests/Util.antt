-- ===== src/Tests/Util.antt =====
-- pkg/util/string.go at a line with a comment.
