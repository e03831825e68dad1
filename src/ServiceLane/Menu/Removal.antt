-- ===== src/ServiceLane/Menu/Removal.antt =====
-- What is planned when the selection of environments is confirmed.
use kuberpult.Store.Cart.{Cart}
