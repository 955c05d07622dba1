-- ===== src/Notes/Recognition.antt =====
-- A note store of src/notes.rs that is not rewound goes on recognising every nullifier of its own.
