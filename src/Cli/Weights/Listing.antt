-- ===== src/Cli/Weights/Listing.antt =====
-- What `list` prints.
