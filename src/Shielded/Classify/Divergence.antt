-- ===== src/Shielded/Classify/Divergence.antt =====
-- Where the two callers of classification in src/shielded.rs differ: a block that feeds the note trees is
-- classified without the register of issued addresses, and any other block with it.
