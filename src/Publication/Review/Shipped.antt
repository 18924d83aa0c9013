-- ===== src/Publication/Review/Shipped.antt =====
-- From the request to the shared library: what an approval ships.
