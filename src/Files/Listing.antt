-- ===== src/Files/Listing.antt =====
-- Which files a reader gets to see.
